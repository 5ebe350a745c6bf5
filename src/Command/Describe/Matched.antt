-- ===== src/Command/Describe/Matched.antt =====
-- The tokens that are collected on the way: each as it should be, and all different.
use qr_wireguard_ui.Base.{
  Bool, true, false, not, ◌&&◌, ◌≡◌, ◌⊎◌, inl, inr, refl, Option, List, [], ◌∷◌, ◌++◌, arith,
  if◌then◌else◌, Bool-cases,
}
use qr_wireguard_ui.Text.{CString, str_eq}
use qr_wireguard_ui.Command.{Desc}
use qr_wireguard_ui.Command.Describe.{
  cmd_entry_function_desc, desc_unique_string, desc_cr, set_cr, describe_descs,
}

abbrev pub AllDescs : (Desc → Type 0) → List Desc → Type 0
AllDescs Q [] = Unit
AllDescs Q (d ∷ rest) = Q d × AllDescs Q rest

abbrev pub AreDistinct : List Desc → Type 0
AreDistinct [] = Unit
AreDistinct (d ∷ rest) = AllDescs (λ t. str_eq d.cmd t.cmd ≡ false) rest × AreDistinct rest

abbrev pub HasDesc : Desc → List Desc → Type 0
HasDesc d [] = ⊥
HasDesc d (x ∷ rest) = (x ≡ d) ⊎ HasDesc d rest

pub AllDescs-append :
    (Q : Desc → Type 0) (xs ys : List Desc) → AllDescs Q xs → AllDescs Q ys → AllDescs Q (xs ++ ys)
AllDescs-append Q [] ys a b = b
AllDescs-append Q (x ∷ xs) ys a b = (a.0, AllDescs-append Q xs ys a.1 b)

AreDistinct-append :
    (xs : List Desc) (d : Desc)
    → AreDistinct xs
    → desc_unique_string xs d.cmd ≡ false
    → AreDistinct (xs ++ (d ∷ []))
unfolding desc_unique_string
AreDistinct-append [] d a u = (tt, tt)
AreDistinct-append (x ∷ xs) d a u = (
  AllDescs-append (λ t. str_eq x.cmd t.cmd ≡ false) xs (d ∷ []) a.0 (ground arith, tt),
  AreDistinct-append xs d a.1 (ground arith),
)

-- The tokens so far.
abbrev pub IsMatched : (Desc → Type 0) → List Desc → Type 0
IsMatched Q xs = AllDescs Q xs × AreDistinct xs

module _ (Q : Desc → Type 0) where
  IsMatched-append :
      (xs : List Desc) (d : Desc)
      → desc_unique_string xs d.cmd ≡ false
      → Q d
      → IsMatched Q xs
      → IsMatched Q (xs ++ (d ∷ []))
  IsMatched-append xs d u q m =
      (AllDescs-append Q xs (d ∷ []) m.0 (q, tt), AreDistinct-append xs d m.1 u)

  pub set_cr-IsMatched : (xs : List Desc) → Q desc_cr → IsMatched Q xs → IsMatched Q (set_cr xs)
  unfolding set_cr
  set_cr-IsMatched xs q m = elim (Bool-cases (desc_unique_string xs desc_cr.cmd)) [
    | inl there ↦ rw there m
    | inr new ↦ rw new (IsMatched-append xs desc_cr new q m)
  ]

  module _ (src : Option CString) where
    described :
        (xs : List Desc) (d : Desc) (b c : Bool)
        → cmd_entry_function_desc src d.cmd ≡ b
        → desc_unique_string xs d.cmd ≡ c
        → (cmd_entry_function_desc src d.cmd ≡ true → Q d)
        → IsMatched Q xs
        → IsMatched Q (if b && not c then xs ++ (d ∷ []) else xs)
    described xs d false c e u q m = m
    described xs d true true e u q m = m
    described xs d true false e u q m = IsMatched-append xs d u (q e) m

    pub describe_descs-IsMatched :
        (ds xs : List Desc)
        → ((d : Desc) → HasDesc d ds → cmd_entry_function_desc src d.cmd ≡ true → Q d)
        → IsMatched Q xs
        → IsMatched Q (describe_descs src ds xs)
    unfolding describe_descs
    describe_descs-IsMatched [] xs q m = m
    describe_descs-IsMatched (d ∷ ds) xs q m =
        describe_descs-IsMatched ds _ (λ x has. q x (inr has))
          (described xs d _ _ refl refl (q d (inl refl)) m)
