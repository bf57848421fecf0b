-- ===== src/Models/Context/Turns.antt =====
-- The abstract view of a history: a list of complete turns, and the turn in progress.
use purrcept_core.Base.{
  ℕ, zero, suc, ◌+◌, ◌-◌, ◌≤◌, ◌<◌, ◌≡◌, refl, ap, ◌∙◌, List, [], ◌∷◌, ◌++◌, map, append_assoc,
  arith, length, get_or, take, drop, length-append, All, ok,
}
use purrcept_core.Models.Messages.{Message}
use purrcept_core.Models.Context.{normalize_boundaries, turn_start}

abbrev pub Turn : Type 0
Turn = List Message

abbrev pub flat : List Turn → List Message
flat [] = []
flat (t ∷ ts) = t ++ flat ts

abbrev pub total : List Turn → ℕ
total [] = 0
total (t ∷ ts) = length t + total ts

-- The end offsets of the turns, the first of which begins at `start`.
abbrev pub offsets : ℕ → List Turn → List ℕ
offsets start [] = []
offsets start (t ∷ ts) = (start + length t) ∷ offsets (start + length t) ts

-- The messages and boundaries stand for these complete turns, none of them empty, and this turn in
-- progress.
pub record Represents (messages : List Message) (boundaries : List ℕ) (ts : List Turn)
    (current : Turn) : Type 0 where
  pub joined : messages ≡ flat ts ++ current
  pub ends : boundaries ≡ offsets 0 ts
  pub filled : All (λ t. 0 < length t) ts

pub length-flat : (ts : List Turn) → length (flat ts) ≡ total ts
length-flat [] = refl
length-flat (t ∷ ts) = omega (arith, length-append t (flat ts), length-flat ts)

pub length-offsets : (start : ℕ) (ts : List Turn) → length (offsets start ts) ≡ length ts
length-offsets start [] = refl
length-offsets start (t ∷ ts) = ap suc (length-offsets (start + length t) ts)

-- Boundaries that come from filled turns within the messages are accepted.
pub normalize-offsets :
    (start count : ℕ) (ts : List Turn)
    → All (λ t. 0 < length t) ts
    → start + total ts ≤ count
    → normalize_boundaries start count (offsets start ts) ≡ ok tt
unfolding normalize_boundaries
normalize-offsets start count [] h fits = refl
normalize-offsets start count (t ∷ ts) h fits =
    ground (arith, normalize-offsets (start + length t) count ts h.1)

pub get_or-offsets :
    (start k : ℕ) (ts : List Turn)
    → k < length ts
    → get_or (offsets start ts) k 0 ≡ start + total (take (suc k) ts)
get_or-offsets start k [] h = absurd (omega arith)
get_or-offsets start zero (t ∷ ts) h = omega arith
get_or-offsets start (suc k) (t ∷ ts) h = omega (arith, get_or-offsets (start + length t) k ts)

pub turn_start-offsets :
    (k : ℕ) (ts : List Turn) → k ≤ length ts → turn_start (offsets 0 ts) k ≡ total (take k ts)
turn_start-offsets zero ts h = refl
turn_start-offsets (suc k) ts h = get_or-offsets 0 k ts h ∙ omega arith

pub drop-offsets :
    (start k : ℕ) (ts : List Turn)
    → k ≤ length ts
    → drop k (offsets start ts) ≡ offsets (start + total (take k ts)) (drop k ts)
drop-offsets start zero ts h = ap (λ (n : ℕ). offsets n ts) (omega arith)
drop-offsets start (suc k) [] h = absurd (omega arith)
drop-offsets start (suc k) (t ∷ ts) h =
    drop-offsets (start + length t) k ts (omega arith)
    ∙ ap (λ (n : ℕ). offsets n (drop k ts)) (omega arith)

pub shift-offsets :
    (by start : ℕ) (ts : List Turn) → map (λ b. b - by) (offsets (by + start) ts) ≡ offsets start ts
shift-offsets by start [] = refl
shift-offsets by start (t ∷ ts) =
    let here : by + start + length t - by ≡ start + length t = omega arith in
    let next : by + start + length t ≡ by + (start + length t) = omega arith in
    rw here (ap (λ bs. (start + length t) ∷ bs) (rw next (shift-offsets by (start + length t) ts)))

pub drop-length-append : (xs ys : List Message) → drop (length xs) (xs ++ ys) ≡ ys
drop-length-append [] ys = refl
drop-length-append (x ∷ xs) ys = drop-length-append xs ys

drop_add :
    (xs : List Message) (n : ℕ) (ys : List Message) → drop (length xs + n) (xs ++ ys) ≡ drop n ys
drop_add [] n ys = ap (λ (k : ℕ). drop k ys) (omega arith)
drop_add (x ∷ xs) n ys =
    ap (λ (k : ℕ). drop k (x ∷ xs ++ ys)) {y = suc (length xs + n)} (omega arith) ∙ drop_add xs n ys

-- Cutting the messages where turn `k` begins leaves the turns from `k` on.
pub drop-flat :
    (k : ℕ) (ts : List Turn) (current : Turn)
    → k ≤ length ts
    → drop (total (take k ts)) (flat ts ++ current) ≡ flat (drop k ts) ++ current
drop-flat zero ts current h = refl
drop-flat (suc k) [] current h = absurd (omega arith)
drop-flat (suc k) (t ∷ ts) current h =
    rw (append_assoc t (flat ts) current)
      (drop_add t (total (take k ts)) (flat ts ++ current) ∙ drop-flat k ts current (omega arith))
