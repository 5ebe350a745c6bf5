-- ===== src/Session/Common/Hostname.antt =====
-- What `hostname` and `no hostname` do to the running configuration.
use qr_wireguard_ui.Base.{
  ◌≤◌, ◌-◌, true, false, ◌≡◌, ◌≢◌, refl, ap, sym, Option, none, some, List, [], ◌∷◌, ◌++◌, arith,
  append-nil, length, length-append, leb, Bool-cases, inl, inr, if◌then◌else◌,
}
use mathlib.Core.Path.{subst}
use qr_wireguard_ui.Text.{CString, codes, starts_with, str_eq, str_lt}
use qr_wireguard_ui.Config.{
  add_before, config_add_line, config_del_line_byleft, config_get_line_byleft,
}
use qr_wireguard_ui.Config.Printf.{vasprintf}
use qr_wireguard_ui.Config.Lines.{
  count, occurrences, delete_first_none, replace_byleft, count-delete_first,
  count-delete_first_other, starts_differ,
}
use qr_wireguard_ui.Session.{Session, Step, faults}
use qr_wireguard_ui.Session.Common.{
  succeeds, is_alpha, is_file, set_system_name, named, config_hostname, config_no_hostname,
}

abbrev pub hostname_line : CString → CString
hostname_line name = codes "hostname " ++ name

hostname_printed :
    (name : CString) → vasprintf (codes "hostname %s") (name ∷ []) ≡ some (hostname_line name)
unfolding vasprintf
hostname_printed name = ap (λ rest. some (codes "hostname " ++ rest)) (append-nil name)

-- What a session is after `hostname name`: one line of the name, all others as before, and the
-- name itself unless the line comes from the configuration file.
abbrev pub HasName : CString → Session → Session → Type 0
HasName name s s' =
    (count (starts_with (codes "hostname")) s'.config_top ≡ 1)
    × (config_get_line_byleft s'.config_top (codes "hostname") ≡ some (hostname_line name))
    × ((l : CString)
        → starts_with (codes "hostname") l ≡ false
        → occurrences l s'.config_top ≡ occurrences l s.config_top)
    × (s'.host.name ≡ (if is_file s.vty.type then s.host.name else some name))
    × (s'.vty ≡ s.vty)

-- While a file is loaded, and no line is there for a name.
pub config_hostname_file :
    (name : CString) (s : Session)
    → is_alpha name ≡ true
    → is_file s.vty.type ≡ true
    → count (starts_with (codes "hostname")) s.config_top ≡ 0
    → config_hostname (name ∷ []) s
      ≡ succeeds (record s { config_top = add_before str_lt (hostname_line name) s.config_top })
unfolding config_hostname config_del_line_byleft
config_hostname_file name s alpha file fresh =
    rw
      (
        alpha,
        delete_first_none (starts_with (codes "hostname")) s.config_top fresh,
        append-nil name,
        file,
      )
      refl

set_system_name_fits :
    (name : CString) → length name ≤ 986 → leb 1024 (length (set_system_name name)) ≡ false
set_system_name_fits name fits = grind (arith, length-append name (codes "'"))

named-HasName :
    (name : CString) (s : Session) (d : List CString)
    → length name ≤ 986
    → count (starts_with (codes "hostname")) d ≡ 1
    → config_get_line_byleft d (codes "hostname") ≡ some (hostname_line name)
    → ((l : CString)
        → starts_with (codes "hostname") l ≡ false
        → occurrences l d ≡ occurrences l s.config_top)
    → (s' : Session) × (named name (record s { config_top = d }) ≡ succeeds s') × HasName name s s'
named-HasName name s d fits one found kept = elim (Bool-cases (is_file s.vty.type)) [
  | inl file ↦ rw file (record s { config_top = d }, refl, (one, found, kept, refl, refl))
  | inr shell ↦
      rw (shell, set_system_name_fits name fits)
        (
          record s { config_top = d; host = record s.host { name = some name } },
          refl,
          (one, found, kept, refl, refl),
        )
]

added_named :
    (name : CString) (s : Session) (o : Option (List CString)) (d : List CString)
    → o ≡ some d
    → (elim o as (λ x. Step) [
      | none ↦ faults
      | some config ↦ named name (record s { config_top = config })
    ])
      ≡ named name (record s { config_top = d })
added_named name s o d h = rw h refl

config_hostname-named :
    (name : CString) (argv : List CString) (s : Session) (d : List CString)
    → is_alpha name ≡ true
    → config_add_line
        (config_del_line_byleft s.config_top (codes "hostname"))
        (codes "hostname %s")
        (name ∷ [])
      ≡ some d
    → config_hostname (name ∷ argv) s ≡ named name (record s { config_top = d })
unfolding config_hostname
config_hostname-named name argv s d alpha added = rw alpha (added_named name s _ d added)

hostname-ne_nil : codes "hostname" ≢ []
hostname-ne_nil e = absurd (ground arith)

hostname_starts : (name : CString) → starts_with (codes "hostname") (hostname_line name) ≡ true
unfolding starts_with
hostname_starts name = refl

-- If the name begins with a letter and has at most 986 bytes, and at most one line of the
-- configuration begins with `hostname`, the command succeeds: the one such line is then that of the name, every other line
-- is there as often as before, and the name is set unless the line comes from a file.
pub config_hostname-HasName :
    (name : CString) (argv : List CString) (s : Session)
    → is_alpha name ≡ true
    → length name ≤ 986
    → count (starts_with (codes "hostname")) s.config_top ≤ 1
    → (s' : Session) × (config_hostname (name ∷ argv) s ≡ succeeds s') × HasName name s s'
config_hostname-HasName name argv s alpha fits once =
    let (d, added, one, found, kept) =
      replace_byleft s.config_top (codes "hostname") (codes "hostname %s") (name ∷ [])
        (hostname_line name) hostname-ne_nil (hostname_printed name) (hostname_starts name) once in
    subst (λ step. (s' : Session) × (step ≡ succeeds s') × HasName name s s')
      (sym (config_hostname-named name argv s d alpha added))
      (named-HasName name s d fits one found kept)

-- `no hostname` forgets the name, and takes out one line that begins with `hostname ` if there is
-- one; the other lines stay.
pub config_no_hostname-count :
    (s : Session)
    → (s' : Session) × (config_no_hostname s ≡ succeeds s')
      × (s'.host.name ≡ none)
      × (count (starts_with (codes "hostname ")) s'.config_top
          ≡ count (starts_with (codes "hostname ")) s.config_top - 1)
      × ((l : CString)
          → starts_with (codes "hostname ") l ≡ false
          → occurrences l s'.config_top ≡ occurrences l s.config_top)
unfolding config_no_hostname config_del_line_byleft
config_no_hostname-count s = (
  record s {
    host = record s.host { name = none };
    config_top = config_del_line_byleft s.config_top (codes "hostname ");
  },
  refl,
  refl,
  count-delete_first (starts_with (codes "hostname ")) s.config_top,
  λ l k.
      count-delete_first_other (λ pnt. str_eq pnt l) (starts_with (codes "hostname ")) s.config_top
        (λ x h. starts_differ (codes "hostname ") x l h k),
)
