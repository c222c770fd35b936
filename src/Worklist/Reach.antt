-- ===== src/Worklist/Reach.antt =====
-- What the worklist loop collects: what it starts with, and all that is reached from its queue.
use smrt.Base.{
  ℕ, zero, suc, ◌≡◌, refl, ◌↔◌, ◌⊎◌, inl, inr, true, some, List, [], ◌∷◌, Memᴰ, arith, Eq, ℕ-Eq,
  Bool-cases, Memᴰ-cons, contains, contains_iff, Text-Eq,
}
use mathlib.Core.Logic.{⊎_elim}
use mathlib.Core.List.Memᴰ
use mathlib.Core.Path.{subst}
use mathlib.Core.Option.{some_inj}
use smrt.Worklist.{push_all, drain}

pub Memᴰ-push_all {ℓ} :
    {A : Type ℓ} (x : A) (ds queue : List A)
    → Memᴰ x (push_all ds queue) ↔ (Memᴰ x ds ⊎ Memᴰ x queue)
Memᴰ-push_all x [] queue = (inr, ⊎_elim (λ m. absurd (Memᴰ.not-nil m)) (λ m. m))
Memᴰ-push_all x (d ∷ ds) queue =
    ground (arith, Memᴰ-push_all x ds (d ∷ queue), Memᴰ-cons x d queue, Memᴰ-cons x d ds)

module _ {ℓ} {A : Type ℓ} (deps : A → List A) where
  -- reached from a start along any number of edges
  pub data Reached (start : List A) : A → Type ℓ where
    begin : {x : A} → Memᴰ x start → Reached start x
    follow : {y x : A} → Reached start y → Memᴰ x (deps y) → Reached start x

  -- the edges out of the set lead into the set or are queued
  abbrev pub IsQueued : List A → List A → Type ℓ
  IsQueued set queue = (y x : A) → Memᴰ y set → Memᴰ x (deps y) → Memᴰ x set ⊎ Memᴰ x queue

module _ {ℓ} {A : Type ℓ} ⦃e : Eq A⦄ (deps : A → List A) where
  -- a property that edges carry on holds of all that is collected
  drain_sound {κ} :
      (P : A → Type κ)
      → ((y x : A) → P y → Memᴰ x (deps y) → P x)
      → (fuel : ℕ) (set queue r : List A) → ((x : A) → Memᴰ x set → P x)
      → ((x : A) → Memᴰ x queue → P x)
      → drain deps fuel set queue ≡ some r
      → (x : A) → Memᴰ x r
      → P x
  unfolding drain
  drain_sound P step zero set [] r hs hq h x m = hs x (rw (some_inj.0 h) m)
  drain_sound P step zero set (y ∷ queue) r hs hq h x m = cc
  drain_sound P step (suc fuel) set [] r hs hq h x m = hs x (rw (some_inj.0 h) m)
  drain_sound P step (suc fuel) set (y ∷ queue) r hs hq h x m = elim (Bool-cases (contains set y)) [
    | inl old ↦
        drain_sound P step fuel set queue r hs (λ z k. hq z (Memᴰ.tail k)) (rw (old, drain) at h) x
          m
    | inr new ↦
        drain_sound P step fuel (y ∷ set) (push_all (deps y) queue) r
          (λ z k. ⊎_elim (λ q. rw q (hq y (Memᴰ.head refl))) (hs z) (Memᴰ.cases_cons k))
          (λ z k.
            ⊎_elim (step y z (hq y (Memᴰ.head refl))) (λ l. hq z (Memᴰ.tail l))
              ((Memᴰ-push_all z (deps y) queue).0 k))
          (rw (new, drain) at h) x m
  ]

  IsQueued-skip :
      (y : A) (set queue : List A)
      → contains set y ≡ true
      → IsQueued deps set (y ∷ queue)
      → IsQueued deps set queue
  IsQueued-skip y set queue old h z x mz mx =
      ground (arith, h z x mz mx, Memᴰ-cons x y queue, contains_iff set y, contains_iff set x)

  IsQueued-add :
      (y : A) (set queue : List A)
      → IsQueued deps set (y ∷ queue)
      → IsQueued deps (y ∷ set) (push_all (deps y) queue)
  IsQueued-add y set queue h z x mz mx = elim (Memᴰ.cases_cons mz) [
    | inl first ↦ inr ((Memᴰ-push_all x (deps y) queue).1 (inl (rw first at mx)))
    | inr old ↦ elim (h z x old mx) [
      | inl m ↦ inl (Memᴰ.tail m)
      | inr m ↦ elim (Memᴰ.cases_cons m) [
        | inl first ↦ inl (Memᴰ.head first)
        | inr rest ↦ inr ((Memᴰ-push_all x (deps y) queue).1 (inr rest))
      ]
    ]
  ]

  -- what the loop leaves: all of the set and the queue is in it, and it is closed under edges
  abbrev IsComplete : List A → List A → List A → Type ℓ
  IsComplete set queue r = ((x : A) → Memᴰ x set ⊎ Memᴰ x queue → Memᴰ x r) × IsQueued deps r []

  IsComplete-done : (set r : List A) → IsQueued deps set [] → set ≡ r → IsComplete set [] r
  IsComplete-done set r q h =
      subst (IsComplete set []) h (λ x. ⊎_elim (λ m. m) (λ m. absurd (Memᴰ.not-nil m)), q)

  drain-IsComplete :
      (fuel : ℕ) (set queue r : List A)
      → IsQueued deps set queue
      → drain deps fuel set queue ≡ some r
      → IsComplete set queue r
  unfolding drain
  drain-IsComplete zero set [] r q h = IsComplete-done set r q (some_inj.0 h)
  drain-IsComplete zero set (y ∷ queue) r q h = cc
  drain-IsComplete (suc fuel) set [] r q h = IsComplete-done set r q (some_inj.0 h)
  drain-IsComplete (suc fuel) set (y ∷ queue) r q h = elim (Bool-cases (contains set y)) [
    | inl old ↦
        let (keeps, closed) =
          drain-IsComplete fuel set queue r (IsQueued-skip y set queue old q)
            (rw (old, drain) at h) in
        (
          λ x.
              ⊎_elim (λ m. keeps x (inl m))
                (λ m.
                  ⊎_elim (λ first. keeps x (inl (rw first ((contains_iff set y).0 old))))
                    (λ rest. keeps x (inr rest)) (Memᴰ.cases_cons m)),
          closed,
        )
    | inr new ↦
        let (keeps, closed) =
          drain-IsComplete fuel (y ∷ set) (push_all (deps y) queue) r (IsQueued-add y set queue q)
            (rw (new, drain) at h) in
        (
          λ x.
              ⊎_elim (λ m. keeps x (inl (Memᴰ.tail m)))
                (λ m.
                  ⊎_elim (λ first. keeps x (inl (Memᴰ.head first)))
                    (λ rest. keeps x (inr ((Memᴰ-push_all x (deps y) queue).1 (inr rest))))
                    (Memᴰ.cases_cons m)),
          closed,
        )
  ]

  Reached-mem :
      (start r : List A)
      → ((x : A) → Memᴰ x start → Memᴰ x r)
      → IsQueued deps r []
      → (x : A) → Reached deps start x
      → Memᴰ x r
  Reached-mem start r starts closed x (begin m) = starts x m
  Reached-mem start r starts closed x (follow {y = y} w m) =
      ⊎_elim (λ k. k) (λ k. absurd (Memᴰ.not-nil k))
        (closed y x (Reached-mem start r starts closed y w) m)

  -- The loop collects the set that it starts with and what is reached from its queue, no more and
  -- no less.
  pub drain_mem :
      (fuel : ℕ) (set queue r : List A)
      → IsQueued deps set queue
      → drain deps fuel set queue ≡ some r
      → (x : A) → Memᴰ x r ↔ (Memᴰ x set ⊎ Reached deps queue x)
  drain_mem fuel set queue r q h x =
      let (keeps, closed) = drain-IsComplete fuel set queue r q h in
      (
        drain_sound (λ z. Memᴰ z set ⊎ Reached deps queue z)
            (λ y z p m.
              ⊎_elim (λ old. ⊎_elim inl (λ k. inr (begin k)) (q y z old m)) (λ w. inr (follow w m))
                p)
            fuel set queue r (λ z m. inl m) (λ z m. inr (begin m)) h x,
        ⊎_elim (λ m. keeps x (inl m)) (Reached-mem queue r (λ z m. keeps z (inr m)) closed x),
      )
