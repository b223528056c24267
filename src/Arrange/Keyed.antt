-- ===== src/Arrange/Keyed.antt =====
-- The placements of arrangePlacements are a map: a match placed again takes the place of its entry.
use plan_my_pickle_backend.Base.{
  ℕ, ◌+◌, ◌≡◌, sym, refl, subst, ap, inl, inr, List, [], ◌∷◌, String, str_eq, Bool-cases, All,
  count, hit, hit_self, hit_ne, hit-cases, ids_by, arith, eq_iff, min,
}
use plan_my_pickle_backend.Arrange.{CourtPlacement, without_id}

abbrev pub Placement : Type 0
Placement = String × CourtPlacement

-- A relation of the later elements of a list to the earlier ones.
abbrev pub Pairwise {ℓ κ} : {A : Type ℓ} → (A → A → Type κ) → List A → Type κ
Pairwise R [] = Unit
Pairwise R (x ∷ xs) = All (λ y. R y x) xs × Pairwise R xs

-- Each of the ids is there exactly once, and no other is.
abbrev pub IsSetOf : List String → List String → Type 0
IsSetOf keys ids = (a : String) → count a keys ≡ min 1 (count a ids)

pub without_id_self :
    (m : String) (ps : List Placement) → count m (ids_by (λ p. p.0) (without_id m ps)) ≡ 0
without_id_self m [] = refl
without_id_self m (p ∷ ps) = elim (Bool-cases (str_eq m p.0)) [
  | inl same ↦ rw same (without_id_self m ps)
  | inr other ↦
      let ne : hit p.0 m ≡ 0 =
        hit_ne p.0 m (λ e. absurd (let t = (eq_iff m p.0).1 (sym e) in cc)) in
      rw other (omega (arith, ne, without_id_self m ps))
]

pub without_id_other :
    (m a : String) (ps : List Placement)
    → hit m a ≡ 0
    → count a (ids_by (λ p. p.0) (without_id m ps)) ≡ count a (ids_by (λ p. p.0) ps)
without_id_other m a [] h = refl
without_id_other m a (p ∷ ps) h = elim (Bool-cases (str_eq m p.0)) [
  | inl same ↦
      let e = ap (λ y. hit y a) ((eq_iff m p.0).0 same) in
      rw same (omega (arith, h, e, without_id_other m a ps h))
  | inr other ↦ rw other (omega (arith, without_id_other m a ps h))
]

-- A match placed counts for its id only.
pub place-count :
    (m a : String) (ps : List Placement) (k : ℕ)
    → count a (ids_by (λ p. p.0) ps) ≡ min 1 k
    → hit m a + count a (ids_by (λ p. p.0) (without_id m ps)) ≡ min 1 (hit m a + k)
place-count m a ps k h = elim (hit-cases m a) [
  | inl e ↦
      subst (λ y. hit m y + count y (ids_by (λ p. p.0) (without_id m ps)) ≡ min 1 (hit m y + k)) e
        (omega (arith, hit_self m, without_id_self m ps))
  | inr none_hit ↦ omega (arith, none_hit, without_id_other m a ps none_hit, h)
]

pub without_id-All {ℓ} :
    (P : Placement → Type ℓ) (m : String) (ps : List Placement) → All P ps → All P (without_id m ps)
without_id-All P m [] h = h
without_id-All P m (p ∷ ps) h = elim (Bool-cases (str_eq m p.0)) [
  | inl same ↦ rw same (without_id-All P m ps h.1)
  | inr other ↦ rw other (h.0, without_id-All P m ps h.1)
]

pub without_id-Pairwise {ℓ} :
    (R : Placement → Placement → Type ℓ) (m : String) (ps : List Placement)
    → Pairwise R ps
    → Pairwise R (without_id m ps)
without_id-Pairwise R m [] h = h
without_id-Pairwise R m (p ∷ ps) h = elim (Bool-cases (str_eq m p.0)) [
  | inl same ↦ rw same (without_id-Pairwise R m ps h.1)
  | inr other ↦ rw other (without_id-All (λ q. R q p) m ps h.0, without_id-Pairwise R m ps h.1)
]
