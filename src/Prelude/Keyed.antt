-- ===== src/Prelude/Keyed.antt =====
-- Python dicts whose keys are tuples: association lists over a Boolean test of equal keys. A key
-- that is assigned again keeps its place.
use mathlib.Core.Path.{◌≡◌, refl, ap, subst}
use mathlib.Core.Logic.{inl, inr}
use mathlib.Core.Bool.{Bool, true, false}
use mathlib.Core.Option.{Option, none, some}
use mathlib.Core.List.{List, [], ◌∷◌}
use native.Mathlib.Omega.{arith}
use bookie_breaker_agent.Prelude.Tests.{if◌then◌else◌, Bool-cases}
use bookie_breaker_agent.Prelude.Lists.{All}

-- What Python's `==` promises of keys.
pub record IsEquality {ℓ} (K : Type ℓ) (same : K → K → Bool) : Type ℓ where
  pub same_refl : (a : K) → same a a ≡ true
  pub same_sym : (a b : K) → same a b ≡ true → same b a ≡ true
  pub same_trans : (a b c : K) → same a b ≡ true → same b c ≡ true → same a c ≡ true

abbrev pub or_else {ℓ} : {A : Type ℓ} → A → Option A → A
or_else d none = d
or_else d (some a) = a

pub some-injective {ℓ} : {A : Type ℓ} (a b : A) → some a ≡ some b → a ≡ b
some-injective a b h = ap (or_else a) h

module _ {ℓ κ} {K : Type ℓ} {V : Type κ} (same : K → K → Bool) where
  -- `d.get(key)`
  unfoldable pub find : K → List (K × V) → Option V
  find key [] = none
  find key ((k, v) ∷ d) = if same k key then some v else find key d

  -- `d[key] = value`
  unfoldable pub put : K → V → List (K × V) → List (K × V)
  put key value [] = (key, value) ∷ []
  put key value ((k, v) ∷ d) =
      let rest = put key value d in if same k key then (k, value) ∷ d else (k, v) ∷ rest

  -- What holds of the entries, and of the new value under every key equal to the assigned one, holds
  -- after the assignment.
  pub put-entries {μ} :
      (P : K → V → Type μ) (key : K) (value : V) (d : List (K × V))
      → P key value
      → ((k : K) → same k key ≡ true → P k value)
      → All (λ e. P (e.0) (e.1)) d
      → All (λ e. P (e.0) (e.1)) (put key value d)
  unfolding put
  put-entries P key value [] h same_h hs = (h, tt)
  put-entries P key value ((k, v) ∷ d) h same_h (p, hs) = elim (Bool-cases (same k key)) [
    | inl e ↦ rw e (same_h k e, hs)
    | inr e ↦ rw e (p, put-entries P key value d h same_h hs)
  ]

  pub put-All {μ} :
      (P : V → Type μ) (key : K) (value : V) (d : List (K × V))
      → P value
      → All (λ e. P (e.1)) d
      → All (λ e. P (e.1)) (put key value d)
  put-All P key value d h hs = put-entries (λ k v. P v) key value d h (λ k e. h) hs

  -- A value that is found is an entry's, under an equal key.
  pub find-entry {μ} :
      (P : K → V → Type μ) (key : K) (d : List (K × V)) (v : V)
      → find key d ≡ some v
      → All (λ e. P (e.0) (e.1)) d
      → (k : K) × (same k key ≡ true) × P k v
  unfolding find
  find-entry P key [] v h hs = cc
  find-entry P key ((k, w) ∷ d) v h (p, hs) = elim (Bool-cases (same k key)) [
    | inl e ↦ (k, e, subst (P k) (some-injective w v (rw e at h)) p)
    | inr e ↦ find-entry P key d v (rw e at h) hs
  ]

  pub find-All {μ} :
      (P : V → Type μ) (key : K) (d : List (K × V)) (v : V)
      → find key d ≡ some v
      → All (λ e. P (e.1)) d
      → P v
  find-All P key d v h hs = let (_, _, p) = find-entry (λ k w. P w) key d v h hs in p

  -- The keys differ from one another.
  abbrev pub Apart : List (K × V) → Type 0
  Apart [] = Unit
  Apart ((k, v) ∷ d) = All (λ e. same k (e.0) ≡ false) d × Apart d

  -- An assignment adds no other key.
  put-All_apart :
      (k key : K) (value : V) (d : List (K × V))
      → same k key ≡ false
      → All (λ e. same k (e.0) ≡ false) d
      → All (λ e. same k (e.0) ≡ false) (put key value d)
  unfolding put
  put-All_apart k key value [] h hs = (h, tt)
  put-All_apart k key value ((l, v) ∷ d) h (p, hs) = elim (Bool-cases (same l key)) [
    | inl e ↦ rw e (p, hs)
    | inr e ↦ rw e (p, put-All_apart k key value d h hs)
  ]

  pub put-Apart : (key : K) (value : V) (d : List (K × V)) → Apart d → Apart (put key value d)
  unfolding put
  put-Apart key value [] h = (tt, tt)
  put-Apart key value ((k, v) ∷ d) (h, hs) = elim (Bool-cases (same k key)) [
    | inl e ↦ rw e (h, hs)
    | inr e ↦ rw e (put-All_apart k key value d e h, put-Apart key value d hs)
  ]

  module _ (equality : IsEquality K same) where
    open equality use {same_refl, same_sym, same_trans}

    -- Equal keys find the same.
    pub find-same : (a b : K) (d : List (K × V)) → same a b ≡ true → find a d ≡ find b d
    unfolding find
    find-same a b [] h = refl
    find-same a b ((k, v) ∷ d) h =
        ground (arith, same_trans k a b, same_trans k b a, same_sym a b, find-same a b d h)

    pub find-put_self :
        (key : K) (value : V) (d : List (K × V)) → find key (put key value d) ≡ some value
    unfolding find put
    find-put_self key value [] = rw (same_refl key) refl
    find-put_self key value ((k, v) ∷ d) = elim (Bool-cases (same k key)) [
      | inl e ↦ rw (e, e) refl
      | inr e ↦ rw (e, e) (find-put_self key value d)
    ]

    pub find-put_other :
        (key other : K) (value : V) (d : List (K × V))
        → same key other ≡ false
        → find other (put key value d) ≡ find other d
    unfolding find put
    find-put_other key other value [] h = rw h refl
    find-put_other key other value ((k, v) ∷ d) h = elim (Bool-cases (same k key)) [
      | inl e ↦
          let apart : same k other ≡ false =
            ground (arith, same_sym k key, same_trans key k other) in
          rw (e, apart) refl
      | inr e ↦ elim (Bool-cases (same k other)) [
        | inl g ↦ rw (e, g) refl
        | inr g ↦ rw (e, g) (find-put_other key other value d h)
      ]
    ]
