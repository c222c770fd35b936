-- ===== src/Worklist.antt =====
-- The worklist loop that src/authoring/build.rs and src/authoring/depfill.rs share:
-- `while let Some(x) = queue.pop() { if set.insert(x) { queue.extend(deps(x)) } }`.
-- A queue is kept with its end first, since `pop` and `extend` work there; a hash set is the list
-- of what was inserted. `none` means that the fuel ran out.
pub mod Reach
pub mod Fuel
use smrt.Base.{
  ℕ, zero, suc, ◌+◌, ◌-◌, ◌/◌, true, false, not, Option, none, some, List, [], ◌∷◌, if◌then◌else◌,
  Eq, ℕ-Eq, length, all, contains, Text-Eq,
}

-- `Vec::extend`: one push after another
abbrev pub push_all {ℓ} : {A : Type ℓ} → List A → List A → List A
push_all [] queue = queue
push_all (d ∷ ds) queue = push_all ds (d ∷ queue)

module _ {ℓ} {A : Type ℓ} ⦃e : Eq A⦄ (deps : A → List A) where
  unfoldable pub drain : ℕ → List A → List A → Option (List A)
  drain zero set [] = some set
  drain zero set (x ∷ queue) = none
  drain (suc fuel) set [] = some set
  drain (suc fuel) set (x ∷ queue) = elim (contains set x) [
    | true ↦ drain fuel set queue
    | false ↦ drain fuel (x ∷ set) (push_all (deps x) queue)
  ]

  -- what is left to do: the queue, and the edges out of what is not in the set
  abbrev pub load : List A → List A → ℕ
  load set [] = 0
  load set (k ∷ ks) = (if contains set k then 0 else length (deps k)) + load set ks
