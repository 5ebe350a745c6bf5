-- ===== src/Config.antt =====
-- vtysh_config.c and linklist.c: the running configuration `config_top`, a list of lines that
-- `listnode_add` keeps in the order of `strcmp`. The list is a value here; its nodes are not.
pub mod Printf
pub mod Order
pub mod Lines
pub mod Prefixes
use qr_wireguard_ui.Base.{Bool, Option, none, some, List, [], ◌∷◌, ◌++◌, if◌then◌else◌}
use mathlib.Core.Option
use qr_wireguard_ui.Text.{CString, str_eq, str_lt, starts_with}
use qr_wireguard_ui.Config.Printf.{vasprintf}

-- `listnode_add_sort` with `list->cmp`, a test for `cmp (val, n->data) < 0`: the new node goes
-- before the first node that is greater.
pub add_before {ℓ} : {A : Type ℓ} → (A → A → Bool) → A → List A → List A
add_before cmp val [] = val ∷ []
add_before cmp val (n ∷ rest) = if cmp val n then val ∷ n ∷ rest else n ∷ add_before cmp val rest

-- `listnode_add_sort`, which is `listnode_add`; with no `list->cmp` the node goes to the end.
unfoldable pub listnode_add_sort {ℓ} : {A : Type ℓ} → Option (A → A → Bool) → List A → A → List A
unfolding add_before
listnode_add_sort none list val = list ++ (val ∷ [])
listnode_add_sort (some cmp) list val = add_before cmp val list

-- A `LIST_LOOP` that hands the first node passing its test to `listnode_delete` and returns.
unfoldable pub delete_first {ℓ} : {A : Type ℓ} → (A → Bool) → List A → List A
delete_first test [] = []
delete_first test (pnt ∷ rest) = if test pnt then rest else pnt ∷ delete_first test rest

unfoldable pub config_del_line : List CString → CString → List CString
config_del_line config line = delete_first (λ pnt. str_eq pnt line) config

unfoldable pub config_del_line_byleft : List CString → CString → List CString
config_del_line_byleft config line = delete_first (starts_with line) config

unfoldable pub config_get_line_byleft : List CString → CString → Option CString
config_get_line_byleft [] line = none
config_get_line_byleft (pnt ∷ rest) line =
    if starts_with line pnt then some pnt else config_get_line_byleft rest line

-- `if (vasprintf (...) > 0) listnode_add (...)`: an empty line is not added.
pub add_formatted : List CString → CString → List CString
add_formatted config [] = config
add_formatted config info = listnode_add_sort (some str_lt) config info

-- The line is a format. `none` stands for a format that its arguments do not serve.
unfoldable pub config_add_line : List CString → CString → List CString → Option (List CString)
unfolding add_formatted vasprintf listnode_add_sort
config_add_line config line args = Option.map (add_formatted config) (vasprintf line args)

-- `config_init`
abbrev pub config_init : List CString
config_init = []
