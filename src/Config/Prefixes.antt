-- ===== src/Config/Prefixes.antt =====
-- Lines by what they begin with: two beginnings of one length are the same or never meet, and what
-- is done to the line of one does not touch the line of the other.
use qr_wireguard_ui.Base.{
  ◌≤◌, true, false, ◌≡◌, refl, ◌∙◌, none, some, List, [], ◌∷◌, ◌++◌, arith, length,
}
use qr_wireguard_ui.Text.{CString, str_eq, str_lt, starts_with}
use qr_wireguard_ui.Config.{
  add_before, delete_first, config_del_line_byleft, config_get_line_byleft,
}
use qr_wireguard_ui.Config.Lines.{
  count, count-delete_first, count-add_before, count-delete_first_other, get_byleft_none,
  get_byleft-add_before,
}

pub str_eq-append_both : (p s t : CString) → str_eq (p ++ s) (p ++ t) ≡ str_eq s t
unfolding str_eq
str_eq-append_both [] s t = refl
str_eq-append_both (c ∷ p) s t = ground (arith, str_eq-append_both p s t)

pub starts_same :
    (p q l : CString)
    → length p ≡ length q
    → starts_with p l ≡ true
    → str_eq p q ≡ false
    → starts_with q l ≡ false
unfolding starts_with str_eq
starts_same [] [] l e h k = ground arith
starts_same [] (d ∷ q) l e h k = absurd (omega arith)
starts_same (c ∷ p) [] l e h k = absurd (omega arith)
starts_same (c ∷ p) (d ∷ q) [] e h k = refl
starts_same (c ∷ p) (d ∷ q) (x ∷ l) e h k = ground (arith, starts_same p q l)

module _ (p q : CString)
    (apart : (x : CString) → starts_with p x ≡ true → starts_with q x ≡ false) where
  pub get_byleft-delete_other :
      (c : List CString)
      → config_get_line_byleft (config_del_line_byleft c p) q ≡ config_get_line_byleft c q
  unfolding config_get_line_byleft config_del_line_byleft delete_first
  get_byleft-delete_other [] = refl
  get_byleft-delete_other (x ∷ c) = ground (arith, apart x, get_byleft-delete_other c)

  pub count-delete_other :
      (c : List CString)
      → count (starts_with q) (config_del_line_byleft c p) ≡ count (starts_with q) c
  unfolding config_del_line_byleft
  count-delete_other c = count-delete_first_other (starts_with q) (starts_with p) c apart

pub get_byleft-add_other :
    (q val : CString) (c : List CString)
    → starts_with q val ≡ false
    → config_get_line_byleft (add_before str_lt val c) q ≡ config_get_line_byleft c q
unfolding config_get_line_byleft add_before
get_byleft-add_other q val [] h = rw h refl
get_byleft-add_other q val (x ∷ c) h = ground (arith, get_byleft-add_other q val c)

module _ (p : CString) (c : List CString) (once : count (starts_with p) c ≤ 1) where
  pub count-delete_self : count (starts_with p) (config_del_line_byleft c p) ≡ 0
  unfolding config_del_line_byleft
  count-delete_self = omega (arith, count-delete_first (starts_with p) c)

  pub get_byleft-delete_self : config_get_line_byleft (config_del_line_byleft c p) p ≡ none
  get_byleft-delete_self = get_byleft_none p (config_del_line_byleft c p) count-delete_self

  module _ (val : CString) (starts : starts_with p val ≡ true) where
    pub get_byleft-replace_self :
        config_get_line_byleft (add_before str_lt val (config_del_line_byleft c p)) p ≡ some val
    get_byleft-replace_self =
        get_byleft-add_before p val str_lt (config_del_line_byleft c p) count-delete_self starts

    pub count-replace_self :
        count (starts_with p) (add_before str_lt val (config_del_line_byleft c p)) ≡ 1
    count-replace_self =
        count-add_before (starts_with p) str_lt val (config_del_line_byleft c p)
        ∙ ground (arith, count-delete_self, starts)
