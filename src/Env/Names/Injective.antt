-- ===== src/Env/Names/Injective.antt =====
-- Different places of the CPU state have different names.
use bin2llvm.Base.{
  ℕ, ◌<◌, ◌^◌, Bool, true, false, not, ◌&&◌, [], ◌∷◌, ◌++◌, some, ◌==◌, ◌≡◌, ◌≢◌, refl, ◌∙◌, sym,
  ap, arith, Option-cases, ◌⊎◌, inl, inr,
}
use bin2llvm.Base.Map.{NatMap, find, has}
use bin2llvm.Hex.{Text, hex_text}
use bin2llvm.Hex.RoundTrip.{hex_text-inj}
use bin2llvm.Env.Names.{arm_names, get_global_name, global_at, s2e, current_tb}

-- Equality of texts.
abbrev text_eq : Text → Text → Bool
text_eq [] [] = true
text_eq (c ∷ cs) (d ∷ ds) = c == d && text_eq cs ds
text_eq _ _ = false

text_eq_refl : (t : Text) → text_eq t t ≡ true
text_eq_refl [] = refl
text_eq_refl (c ∷ cs) = ground (arith, text_eq_refl cs)

-- The name stands nowhere in the table; no name twice; none begins with G.
abbrev absent : Text → NatMap Text → Bool
absent t [] = true
absent t ((k, u) ∷ m) = not (text_eq u t) && absent t m

abbrev distinct : NatMap Text → Bool
distinct [] = true
distinct ((k, u) ∷ m) = absent u m && distinct m

abbrev starts_g : Text → Bool
starts_g [] = false
starts_g (c ∷ cs) = c == b'G'

abbrev none_starts_g : NatMap Text → Bool
none_starts_g [] = true
none_starts_g ((k, u) ∷ m) = not (starts_g u) && none_starts_g m

find-absent :
    (k : ℕ) (t u : Text) (m : NatMap Text)
    → absent t m ≡ true
    → find k m ≡ some u
    → text_eq u t ≡ false
unfolding find
find-absent k t u [] h e = cc
find-absent k t u ((j, v) ∷ m) h e = ground (arith, find-absent k t u m)

find-starts_g :
    (k : ℕ) (u : Text) (m : NatMap Text)
    → none_starts_g m ≡ true
    → find k m ≡ some u
    → starts_g u ≡ false
unfolding find
find-starts_g k u [] h e = cc
find-starts_g k u ((j, v) ∷ m) h e = ground (arith, find-starts_g k u m)

find_inj :
    (k j : ℕ) (t : Text) (m : NatMap Text)
    → distinct m ≡ true
    → find k m ≡ some t
    → find j m ≡ some t
    → k ≡ j
unfolding find
find_inj k j t [] h e f = cc
find_inj k j t ((i, u) ∷ m) h e f =
    ground (arith, find_inj k j t m, find-absent k u t m, find-absent j u t m, text_eq_refl t)

name-cases :
    (names : NatMap Text) (k : ℕ)
    → ((t : Text) × (find k names ≡ some t) × (get_global_name names k ≡ t))
      ⊎ (get_global_name names k ≡ global_at ++ hex_text k)
unfolding get_global_name
name-cases names k = elim (Option-cases (find k names)) [
  | inl e ↦ inr (rw (get_global_name, e) refl)
  | inr (t, e) ↦ inl (t, e, rw (get_global_name, e) refl)
]

arm_distinct : distinct arm_names ≡ true
unfolding arm_names has
arm_distinct = refl

arm_none_starts_g : none_starts_g arm_names ≡ true
unfolding arm_names has
arm_none_starts_g = refl

drop_global_at : (s t : Text) → global_at ++ s ≡ global_at ++ t → s ≡ t
drop_global_at s t e = cc

-- Two offsets of the CPU state, of 32 bits, with the same name are one offset: no two registers or
-- unnamed places are merged.
pub get_global_name-inj :
    (k j : ℕ)
    → k < 2 ^ 32
    → j < 2 ^ 32
    → get_global_name arm_names k ≡ get_global_name arm_names j
    → k ≡ j
get_global_name-inj k j hk hj e = elim (name-cases arm_names k) [
  | inl (t, ft, et) ↦ elim (name-cases arm_names j) [
    | inl (u, fu, eu) ↦
        let same : t ≡ u = sym et ∙ e ∙ eu in
        find_inj k j u arm_names arm_distinct (ft ∙ ap some same) fu
    | inr eu ↦
        let same : t ≡ global_at ++ hex_text j = sym et ∙ e ∙ eu in
        absurd (
          let other = find-starts_g k t arm_names arm_none_starts_g ft in
          let g : starts_g t ≡ true = rw same refl in cc)
  ]
  | inr et ↦ elim (name-cases arm_names j) [
    | inl (u, fu, eu) ↦
        let same : u ≡ global_at ++ hex_text k = sym eu ∙ sym e ∙ et in
        absurd (
          let other = find-starts_g j u arm_names arm_none_starts_g fu in
          let g : starts_g u ≡ true = rw same refl in cc)
    | inr eu ↦
        hex_text-inj k j (omega arith) (omega arith)
          (drop_global_at (hex_text k) (hex_text j) (sym et ∙ e ∙ eu))
  ]
]

arm_absent : absent (s2e ++ current_tb) arm_names ≡ true
unfolding arm_names has
arm_absent = refl

-- No place of the CPU state gets the name s2e_current_tb, whose stores S2EDeleteInstructionCount
-- deletes: the table calls it current_tb.
get_global_name-ne-s2e-current_tb : (k : ℕ) → get_global_name arm_names k ≢ s2e ++ current_tb
get_global_name-ne-s2e-current_tb k e = elim (name-cases arm_names k) [
  | inl (t, ft, et) ↦
      let same : t ≡ s2e ++ current_tb = sym et ∙ e in
      let other = find-absent k (s2e ++ current_tb) t arm_names arm_absent ft in
      let self : text_eq t (s2e ++ current_tb) ≡ true = rw same refl in cc
  | inr et ↦ let same : global_at ++ hex_text k ≡ s2e ++ current_tb = sym et ∙ e in ground arith
]
