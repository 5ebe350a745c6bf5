-- ===== src/Config/Order.antt =====
-- The configuration stays in the order of `strcmp`, whatever the commands do to it.
use mathlib.Core.Option
use qr_wireguard_ui.Base.{
  Bool, false, ◌≡◌, inl, inr, refl, Option, none, some, List, [], ◌∷◌, ◌++◌, ap, arith, Bool-cases,
}
use qr_wireguard_ui.Text.{CString, str_lt, str_eq, starts_with}
use qr_wireguard_ui.Text.Order.{str_lt_asymm, str_le_trans, str_lt_total}
use qr_wireguard_ui.Text.Laws.{str_eq_iff, str_eq_refl}
use qr_wireguard_ui.Config.Printf.{vasprintf}
use qr_wireguard_ui.Config.{
  add_before, listnode_add_sort, delete_first, add_formatted, config_add_line, config_del_line,
  config_del_line_byleft, config_init,
}

-- No line of the list is smaller than `x`.
abbrev pub IsLeast : CString → List CString → Type 0
IsLeast x [] = Unit
IsLeast x (y ∷ ys) = (str_lt y x ≡ false) × IsLeast x ys

abbrev pub IsSorted : List CString → Type 0
IsSorted [] = Unit
IsSorted (x ∷ xs) = IsLeast x xs × IsSorted xs

IsLeast-add_before :
    (x val : CString) (xs : List CString)
    → str_lt val x ≡ false
    → IsLeast x xs
    → IsLeast x (add_before str_lt val xs)
unfolding add_before
IsLeast-add_before x val [] h l = (h, tt)
IsLeast-add_before x val (n ∷ xs) h l = ground (arith, IsLeast-add_before x val xs)

IsLeast-trans :
    (x y : CString) (xs : List CString) → str_lt y x ≡ false → IsLeast y xs → IsLeast x xs
IsLeast-trans x y [] h l = tt
IsLeast-trans x y (z ∷ zs) h l = (str_le_trans x y z h l.0, IsLeast-trans x y zs h l.1)

pub add_before-IsSorted :
    (val : CString) (xs : List CString) → IsSorted xs → IsSorted (add_before str_lt val xs)
unfolding add_before
add_before-IsSorted val [] s = (tt, tt)
add_before-IsSorted val (n ∷ xs) s = elim (Bool-cases (str_lt val n)) [
  | inl before ↦
      let down = str_lt_asymm val n before in rw before ((down, IsLeast-trans val n xs down s.0), s)
  | inr after ↦ rw after (IsLeast-add_before n val xs after s.0, add_before-IsSorted val xs s.1)
]

IsLeast-member :
    (y x : CString) (d rest : List CString) → IsLeast y (d ++ x ∷ rest) → str_lt x y ≡ false
IsLeast-member y x [] rest l = l.0
IsLeast-member y x (z ∷ d) rest l = IsLeast-member y x d rest l.1

-- A line that is not smaller than the others comes behind them.
pub add_before-last :
    (d : List CString) (x : CString) (rest : List CString)
    → IsSorted (d ++ x ∷ rest)
    → add_before str_lt x d ≡ d ++ (x ∷ [])
unfolding add_before
add_before-last [] x rest s = refl
add_before-last (y ∷ d) x rest s =
    rw (IsLeast-member y x d rest s.0) (ap (◌∷◌ y) (add_before-last d x rest s.1))

IsLeast-delete_first :
    (x : CString) (test : CString → Bool) (xs : List CString)
    → IsLeast x xs
    → IsLeast x (delete_first test xs)
unfolding delete_first
IsLeast-delete_first x test [] l = l
IsLeast-delete_first x test (n ∷ xs) l = ground (arith, IsLeast-delete_first x test xs)

pub delete_first-IsSorted :
    (test : CString → Bool) (xs : List CString) → IsSorted xs → IsSorted (delete_first test xs)
unfolding delete_first
delete_first-IsSorted test [] s = s
delete_first-IsSorted test (n ∷ xs) s =
    ground (arith, delete_first-IsSorted test xs, IsLeast-delete_first n test xs)

-- What a command does to `config_top`.
pub data Change : Type 0 where
  add_line : CString → List CString → Change
  del_line del_line_byleft : CString → Change

abbrev pub change : List CString → Change → Option (List CString)
change c (add_line line args) = config_add_line c line args
change c (del_line line) = some (config_del_line c line)
change c (del_line_byleft line) = some (config_del_line_byleft c line)

-- The configurations that changes lead to, from the empty one of `config_init`.
pub data Reach : List CString → Type 0 where
  start : Reach config_init
  after : {c d : List CString} (e : Change) → Reach c → change c e ≡ some d → Reach d

add_formatted-IsSorted :
    (c : List CString) (info : CString) → IsSorted c → IsSorted (add_formatted c info)
unfolding add_formatted listnode_add_sort
add_formatted-IsSorted c [] s = s
add_formatted-IsSorted c (b ∷ info) s = add_before-IsSorted (b ∷ info) c s

add_map-IsSorted :
    (c : List CString) (o : Option CString) {d : List CString}
    → IsSorted c
    → Option.map (add_formatted c) o ≡ some d
    → IsSorted d
add_map-IsSorted c none s h = ground arith
add_map-IsSorted c (some info) s h = ground (arith, add_formatted-IsSorted c info)

change-IsSorted :
    (c : List CString) (e : Change) {d : List CString}
    → IsSorted c
    → change c e ≡ some d
    → IsSorted d
unfolding config_add_line config_del_line config_del_line_byleft
change-IsSorted c (add_line line args) s h = add_map-IsSorted c (vasprintf line args) s h
change-IsSorted c (del_line line) s h =
    ground (arith, delete_first-IsSorted (λ pnt. str_eq pnt line) c)
change-IsSorted c (del_line_byleft line) s h =
    ground (arith, delete_first-IsSorted (starts_with line) c)

-- Every configuration that commands can lead to is in the order of `strcmp`.
pub Reach-IsSorted : {c : List CString} → Reach c → IsSorted c
Reach-IsSorted start = tt
Reach-IsSorted (after {c} e r h) = change-IsSorted c e (Reach-IsSorted r) h

add_before_least :
    (line : CString) (xs : List CString) → IsLeast line xs → add_before str_lt line xs ≡ line ∷ xs
unfolding add_before
add_before_least line [] l = refl
add_before_least line (y ∷ ys) l = ground (arith, add_before_least line ys, str_lt_total line y)

-- A line that was added and is deleted again leaves the list as it was.
pub delete_first-add_before :
    (line : CString) (xs : List CString)
    → IsSorted xs
    → delete_first (λ pnt. str_eq pnt line) (add_before str_lt line xs) ≡ xs
unfolding delete_first add_before
delete_first-add_before line [] s = ground (arith, str_eq_refl line)
delete_first-add_before line (n ∷ xs) s = ground (
  arith,
  str_eq_refl line,
  str_eq_iff n line,
  delete_first-add_before line xs,
  add_before_least line xs,
)
