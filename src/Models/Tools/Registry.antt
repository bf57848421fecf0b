-- ===== src/Models/Tools/Registry.antt =====
-- The tools of a tool set.
use mathlib.Core.Path.{subst}
use purrcept_core.Base.{
  String, str_eq, eq_iff, ◌≡◌, refl, sym, ap, ◌∙◌, inl, inr, none, some, List, [], ◌∷◌, ◌++◌,
  append-nil, append_assoc, map, map-append, All, Result, ok, err, ◌>>=◌, bind_ok, ok_same,
  Bool-cases,
}
use purrcept_core.Base.Sets.{
  differ, Distinct-snoc, ◌∈◌, Distinct, string_equal, is_member, is_member_iff,
}
use purrcept_core.Runtime.Exceptions.{Obj}
use purrcept_core.Models.Tools.{
  ToolError, tool_definition, FunctionTool, ToolSet, ToolLike, find_tool, resolve_tool, add_tool,
  register, with_specs, tool_set, get,
}

-- The tools that the values of the constructor stand for.
abbrev pub resolve_all :
    (Obj → Result ToolError FunctionTool) → List ToolLike → Result ToolError (List FunctionTool)
resolve_all wrap [] = ok []
resolve_all wrap (value ∷ values) =
    resolve_tool wrap value >>= λ t. resolve_all wrap values >>= λ ts. ok (t ∷ ts)

abbrev pub names : List FunctionTool → List String
names ts = map (λ t. t.name) ts

abbrev pairs : List FunctionTool → List (String × FunctionTool)
pairs ts = map (λ t. (t.name, t)) ts

find_tool-new :
    (n : String) (ts : List FunctionTool) → ¬ (n ∈ names ts) → find_tool n (pairs ts) ≡ none
find_tool-new n [] h = refl
find_tool-new n (t ∷ ts) h = elim (Bool-cases (str_eq t.name n)) [
  | inl b ↦ absurd (h (inl (sym ((eq_iff t.name n).0 b))))
  | inr b ↦ rw (b, find_tool) (find_tool-new n ts (λ m. h (inr m)))
]

find_tool-old :
    (n : String) (ts : List FunctionTool)
    → n ∈ names ts
    → (t : FunctionTool) × (find_tool n (pairs ts) ≡ some t)
find_tool-old n [] m = absurd m
find_tool-old n (t ∷ ts) m = elim (Bool-cases (str_eq t.name n)) [
  | inl b ↦ (t, rw (b, find_tool) refl)
  | inr b ↦ elim m [
    | inl same ↦ absurd (differ b ((eq_iff t.name n).1 (sym same)))
    | inr later ↦ let (u, found) = find_tool-old n ts later in (u, rw (b, find_tool) found)
  ]
]

Distinct-middle :
    (xs : List String) (y : String) (ys : List String) → Distinct (xs ++ y ∷ ys) → ¬ (y ∈ xs)
Distinct-middle [] y ys d m = m
Distinct-middle (x ∷ xs) y ys (new, d) (inl same) =
    new (subst (λ z. z ∈ (xs ++ y ∷ ys)) same (∈-middle xs y ys))
  where
    ∈-middle : (xs : List String) (y : String) (ys : List String) → y ∈ (xs ++ y ∷ ys)
    ∈-middle [] y ys = inl refl
    ∈-middle (x ∷ xs) y ys = inr (∈-middle xs y ys)
Distinct-middle (x ∷ xs) y ys (new, d) (inr later) = Distinct-middle xs y ys d later

add_tool-new :
    (done : List FunctionTool) (t : FunctionTool)
    → ¬ (t.name ∈ names done)
    → add_tool (pairs done) t ≡ ok (pairs (done ++ t ∷ []))
add_tool-new done t new =
    rw (find_tool-new t.name done new, add_tool)
      (ap ok (sym (map-append (λ (u : FunctionTool). (u.name, u)) done (t ∷ []))))

add_tool-old :
    (done : List FunctionTool) (t : FunctionTool)
    → t.name ∈ names done
    → add_tool (pairs done) t ≡ err tool_definition
add_tool-old done t old =
    let (u, found) = find_tool-old t.name done old in rw (found, add_tool) refl

bind_with :
    {A B : Type 0} (m : Result ToolError A) (f : A → Result ToolError B) (a : A)
    → m ≡ ok a
    → (m >>= f) ≡ f a
bind_with m f a h = rw (h) refl

module _ (wrap : Obj → Result ToolError FunctionTool) where
  register-Distinct :
      (done : List FunctionTool) (values : List ToolLike) (ts : List FunctionTool)
      → resolve_all wrap values ≡ ok ts
      → Distinct (names (done ++ ts))
      → register wrap (pairs done) values ≡ ok (pairs (done ++ ts))
  unfolding register
  register-Distinct done [] ts h d =
      ap (λ us. ok (pairs us))
        (sym (append-nil done) ∙ ap (λ us. done ++ us) (sym (ok_same (ok ts) [] ts refl (sym h))))
  register-Distinct done (value ∷ values) ts h d =
      let first = bind_ok (resolve_tool wrap value) _ ts h in
      let rest = bind_ok (resolve_all wrap values) _ ts first.then in
      let t = first.value in
      let split : t ∷ rest.value ≡ ts =
        ok_same (ok (t ∷ rest.value)) ts (t ∷ rest.value) refl rest.then in
      let joined : (done ++ t ∷ []) ++ rest.value ≡ done ++ ts =
        append_assoc done (t ∷ []) rest.value ∙ ap (λ us. done ++ us) split in
      let new = Distinct-middle (names done) t.name (names rest.value) (
        subst Distinct
          (ap names (ap (λ us. done ++ us) (sym split))
            ∙ map-append (λ (u : FunctionTool). u.name) done (t ∷ rest.value))
          d) in
      bind_with (resolve_tool wrap value) _ t first.first
      ∙ bind_with (add_tool (pairs done) t) _ (pairs (done ++ t ∷ [])) (add_tool-new done t new)
      ∙ register-Distinct (done ++ t ∷ []) values rest.value rest.first
          (subst (λ us. Distinct (names us)) (sym joined) d)
      ∙ ap (λ us. ok (pairs us)) joined

  register-repeated :
      (done : List FunctionTool) (values : List ToolLike) (ts : List FunctionTool)
      → resolve_all wrap values ≡ ok ts
      → Distinct (names done)
      → ¬ Distinct (names (done ++ ts))
      → register wrap (pairs done) values ≡ err tool_definition
  unfolding register
  register-repeated done [] ts h d repeated = absurd (
      repeated (
        subst (λ us. Distinct (names us))
          (sym (append-nil done) ∙ ap (λ us. done ++ us) (sym (ok_same (ok ts) [] ts refl (sym h))))
          d))
  register-repeated done (value ∷ values) ts h d repeated =
      let first = bind_ok (resolve_tool wrap value) _ ts h in
      let rest = bind_ok (resolve_all wrap values) _ ts first.then in
      let t = first.value in
      let split : t ∷ rest.value ≡ ts =
        ok_same (ok (t ∷ rest.value)) ts (t ∷ rest.value) refl rest.then in
      let joined : (done ++ t ∷ []) ++ rest.value ≡ done ++ ts =
        append_assoc done (t ∷ []) rest.value ∙ ap (λ us. done ++ us) split in
      bind_with (resolve_tool wrap value) _ t first.first
      ∙ elim (Bool-cases (is_member t.name (names done))) [
        | inl old ↦ rw (add_tool-old done t ((is_member_iff t.name (names done)).0 old)) refl
        | inr new ↦
            let fresh : ¬ (t.name ∈ names done) =
              λ m. differ new ((is_member_iff t.name (names done)).1 m) in
            bind_with (add_tool (pairs done) t) _ (pairs (done ++ t ∷ []))
              (add_tool-new done t fresh)
            ∙ register-repeated (done ++ t ∷ []) values rest.value rest.first
                (subst Distinct (sym (map-append (λ (u : FunctionTool). u.name) done (t ∷ [])))
                  (Distinct-snoc (names done) t.name d fresh))
                (λ e. repeated (subst (λ us. Distinct (names us)) joined e))
      ]

-- The set has the tools in order, each found by its name, and finds no other.
pub record Registered (tools : ToolSet) (ts : List FunctionTool) : Type 0 where
  pub specs_in_order : tools.specs ≡ map (λ t. t.spec) ts
  pub found : All (λ t. get tools t.name ≡ some t) ts
  pub no_other : (n : String) → ¬ (n ∈ names ts) → get tools n ≡ none

find_tool-hit :
    (n : String) (t : FunctionTool) (ps : List (String × FunctionTool))
    → t.name ≡ n
    → find_tool n ((t.name, t) ∷ ps) ≡ some t
find_tool-hit n t ps e = rw ((eq_iff t.name n).1 e, find_tool) refl

find_tool-miss :
    (n : String) (t : FunctionTool) (ps : List (String × FunctionTool))
    → ¬ (t.name ≡ n)
    → find_tool n ((t.name, t) ∷ ps) ≡ find_tool n ps
find_tool-miss n t ps ne = elim (Bool-cases (str_eq t.name n)) [
  | inl b ↦ absurd (ne ((eq_iff t.name n).0 b))
  | inr b ↦ rw (b, find_tool) refl
]

still_found :
    (t : FunctionTool) (ps : List (String × FunctionTool)) (us : List FunctionTool)
    → ¬ (t.name ∈ names us)
    → All (λ u. find_tool u.name ps ≡ some u) us
    → All (λ u. find_tool u.name ((t.name, t) ∷ ps) ≡ some u) us
still_found t ps [] new h = tt
still_found t ps (u ∷ us) new (first, later) = (
  find_tool-miss u.name t ps (λ e. new (inl e)) ∙ first,
  still_found t ps us (λ m. new (inr m)) later,
)

pairs-found :
    (ts : List FunctionTool)
    → Distinct (names ts)
    → All (λ t. find_tool t.name (pairs ts) ≡ some t) ts
pairs-found [] d = tt
pairs-found (t ∷ ts) (new, d) =
    (find_tool-hit t.name t (pairs ts) refl, still_found t (pairs ts) ts new (pairs-found ts d))

specs-pairs : (ts : List FunctionTool) → map (λ p. p.1.spec) (pairs ts) ≡ map (λ t. t.spec) ts
specs-pairs [] = refl
specs-pairs (t ∷ ts) = ap (λ ss. t.spec ∷ ss) (specs-pairs ts)

-- Where each value of a tool set stands for a tool, the set is made exactly if their names are
-- distinct, and a repeated name is a `ToolDefinitionError`. The set that is made has the tools'
-- specifications in order, finds each of them by its name, and finds no other.
pub tool_set_registers :
    (wrap : Obj → Result ToolError FunctionTool) (values : List ToolLike) (ts : List FunctionTool)
    → resolve_all wrap values ≡ ok ts
    → (Distinct (names ts)
        → (tools : ToolSet) × (tool_set wrap values ≡ ok tools) × Registered tools ts)
      × (¬ Distinct (names ts) → tool_set wrap values ≡ err tool_definition)
unfolding tool_set get
tool_set_registers wrap values ts h = (
  λ d. (
    with_specs (pairs ts),
    bind_with (register wrap [] values) _ (pairs ts) (register-Distinct wrap [] values ts h d),
    record {
      specs_in_order = specs-pairs ts;
      found = pairs-found ts d;
      no_other = λ n new. find_tool-new n ts new;
    },
  ),
  λ repeated. rw (register-repeated wrap [] values ts h tt repeated) refl,
)
