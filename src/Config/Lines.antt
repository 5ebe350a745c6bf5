-- ===== src/Config/Lines.antt =====
-- How often a line, or a line with a given beginning, occurs in the configuration, and what the
-- commands' "delete the old line, add the new one" does to it.
use qr_wireguard_ui.Base.{
  ℕ, ◌+◌, ◌-◌, ◌≤◌, Bool, true, false, ◌≡◌, ◌≢◌, refl, none, some, List, [], ◌∷◌, ◌++◌, arith,
  if◌then◌else◌, inl, inr, Bool-cases, ap,
}
use qr_wireguard_ui.Text.{CString, str_lt, str_eq, starts_with}
use qr_wireguard_ui.Text.Laws.{str_eq_iff}
use qr_wireguard_ui.Config.Printf.{vasprintf, no_percent, vasprintf-no_percent}
use qr_wireguard_ui.Config.Order.{IsSorted, delete_first-add_before, delete_first-IsSorted}
use qr_wireguard_ui.Config.{
  add_before, delete_first, config_add_line, config_del_line, config_del_line_byleft,
  config_get_line_byleft,
}

-- The number of lines that pass a test.
unfoldable pub count : (CString → Bool) → List CString → ℕ
count test [] = 0
count test (x ∷ xs) = (if test x then 1 else 0) + count test xs

abbrev pub occurrences : CString → List CString → ℕ
occurrences line = count (λ pnt. str_eq pnt line)

pub count-delete_first :
    (test : CString → Bool) (xs : List CString)
    → count test (delete_first test xs) ≡ count test xs - 1
unfolding count delete_first
count-delete_first test [] = omega arith
count-delete_first test (x ∷ xs) = ground (arith, count-delete_first test xs)

-- Deleting by one test leaves alone what only another test counts.
pub count-delete_first_other :
    (other test : CString → Bool) (xs : List CString)
    → ((x : CString) → test x ≡ true → other x ≡ false)
    → count other (delete_first test xs) ≡ count other xs
unfolding count delete_first
count-delete_first_other other test [] h = refl
count-delete_first_other other test (x ∷ xs) h =
    ground (arith, h x, count-delete_first_other other test xs h)

pub count-add_before :
    (test : CString → Bool) (cmp : CString → CString → Bool) (val : CString) (xs : List CString)
    → count test (add_before cmp val xs) ≡ (if test val then 1 else 0) + count test xs
unfolding count add_before
count-add_before test cmp val [] = refl
count-add_before test cmp val (x ∷ xs) = ground (arith, count-add_before test cmp val xs)

pub get_byleft_none :
    (p : CString) (xs : List CString)
    → count (starts_with p) xs ≡ 0
    → config_get_line_byleft xs p ≡ none
unfolding count config_get_line_byleft
get_byleft_none p [] h = refl
get_byleft_none p (x ∷ xs) h = ground (arith, get_byleft_none p xs)

pub get_byleft-add_before :
    (p val : CString) (cmp : CString → CString → Bool) (xs : List CString)
    → count (starts_with p) xs ≡ 0
    → starts_with p val ≡ true
    → config_get_line_byleft (add_before cmp val xs) p ≡ some val
unfolding count config_get_line_byleft add_before
get_byleft-add_before p val cmp [] h k = ground arith
get_byleft-add_before p val cmp (x ∷ xs) h k = ground (arith, get_byleft-add_before p val cmp xs)

pub delete_first_none :
    (test : CString → Bool) (xs : List CString) → count test xs ≡ 0 → delete_first test xs ≡ xs
unfolding count delete_first
delete_first_none test [] h = refl
delete_first_none test (x ∷ xs) h = ground (arith, delete_first_none test xs)

-- What `config_add_line` returns, when its format prints a line that is not empty.
pub config_add_line_lem :
    (c : List CString) (line : CString) (args : List CString) (info : CString)
    → vasprintf line args ≡ some info
    → info ≢ []
    → config_add_line c line args ≡ some (add_before str_lt info c)
unfolding config_add_line
config_add_line_lem c line args [] p ne = absurd (ne refl)
config_add_line_lem c line args (b ∷ info) p ne = rw p

pub starts_differ :
    (p x l : CString) → starts_with p x ≡ true → starts_with p l ≡ false → str_eq x l ≡ false
starts_differ p x l h k = elim (Bool-cases (str_eq x l)) [
  | inl same ↦ ground (arith, ap (starts_with p) ((str_eq_iff x l).0 same))
  | inr other ↦ other
]

starts_nil : (p s : CString) → p ≢ [] → starts_with p s ≡ true → s ≢ []
unfolding starts_with
starts_nil [] s ne h e = ne refl
starts_nil (c ∷ p) [] ne h e = cc
starts_nil (c ∷ p) (d ∷ s) ne h e = cc

-- If `p` is not empty, the format prints a line that begins with `p`, and at most one line of the
-- configuration begins with `p`, then deleting by `p` and adding the line succeeds: the new line is
-- the only one that begins with `p`, `config_get_line_byleft` finds it, and every line that does
-- not begin with `p` occurs as often as before.
pub replace_byleft :
    (c : List CString) (p line : CString) (args : List CString) (info : CString)
    → p ≢ []
    → vasprintf line args ≡ some info
    → starts_with p info ≡ true
    → count (starts_with p) c ≤ 1
    → (d : List CString) × (config_add_line (config_del_line_byleft c p) line args ≡ some d)
      × (count (starts_with p) d ≡ 1)
      × (config_get_line_byleft d p ≡ some info)
      × ((l : CString) → starts_with p l ≡ false → occurrences l d ≡ occurrences l c)
replace_byleft c p line args info ne printed starts once =
    let rest = config_del_line_byleft c p in
    let gone : count (starts_with p) rest ≡ 0 =
      unfold config_del_line_byleft in omega (arith, count-delete_first (starts_with p) c) in
    (
      add_before str_lt info rest,
      config_add_line_lem rest line args info printed (starts_nil p info ne starts),
      rw (count-add_before (starts_with p) str_lt info rest) (ground (arith, gone)),
      get_byleft-add_before p info str_lt rest gone starts,
      λ l no_start.
          let other = λ (pnt : CString). str_eq pnt l in
          rw (count-add_before other str_lt info rest) (
            rw (starts_differ p info l starts no_start) (
              unfold config_del_line_byleft in
              omega (
                arith,
                count-delete_first_other other (starts_with p) c
                    (λ x h. starts_differ p x l h no_start),
              ))),
    )

-- On a sorted configuration, for a line with no `%` that is not empty, deleting the line and adding
-- it succeeds, and doing so again changes nothing.
pub set_line_idem :
    (c : List CString) (line : CString)
    → IsSorted c
    → no_percent line ≡ true
    → line ≢ []
    → (d : List CString) × (config_add_line (config_del_line c line) line [] ≡ some d)
      × (config_add_line (config_del_line d line) line [] ≡ some d)
set_line_idem c line s np ne =
    let rest = config_del_line c line in
    let printed = vasprintf-no_percent line np in
    let sorted : IsSorted rest =
      unfold config_del_line in delete_first-IsSorted (λ pnt. str_eq pnt line) c s in
    let added = config_add_line_lem rest line [] line printed ne in
    let again : config_del_line (add_before str_lt line rest) line ≡ rest =
      unfold config_del_line in delete_first-add_before line rest sorted in
    (add_before str_lt line rest, added, rw again added)

-- Where `config_get_line_byleft` finds a line, `config_del_line_byleft` takes that one out.
pub del_byleft-get :
    (c : List CString) (p x : CString)
    → config_get_line_byleft c p ≡ some x
    → (a b : List CString) × (c ≡ a ++ x ∷ b)
      × (config_del_line_byleft c p ≡ a ++ b)
      × (count (starts_with p) a ≡ 0)
unfolding config_get_line_byleft config_del_line_byleft delete_first count
del_byleft-get [] p x h = absurd (ground arith)
del_byleft-get (y ∷ ys) p x h = elim (Bool-cases (starts_with p y)) [
  | inl here ↦ ([], ys, ground arith, rw here, refl)
  | inr later ↦
      let (a, b, split, gone, none_before) = del_byleft-get ys p x (ground arith) in
      (y ∷ a, b, ground arith, rw later (ap (◌∷◌ y) gone), rw later (ground arith))
]
