-- ===== src/Helm/Output.antt =====
-- The texts of commands and of their outputs: `_remove_multiple_spaces`, `_output_to_table`,
-- `_output_to_lines`, `_parse_helm_status_service_info`, `_get_namespace_cluster_id`, and the
-- arguments of `_local_async_exec`.
pub mod Words
pub mod ClusterId
use n2vc.Prelude.{
  ℕ, Bool, true, false, ◌&&◌, ◌||◌, List, [], ◌∷◌, Option, none, some, leb, ◌==◌, if◌then◌else◌,
}
use n2vc.Text.{Text, codes, Unicode, is_space, replace, text_eq}
use n2vc.Text.Split.{split}
use n2vc.Text.Squeeze.{squeeze}

module _ ⦃u : Unicode⦄ where
  unfoldable pub lstrip : Text → Text
  lstrip [] = []
  lstrip (c ∷ s) = let rest = lstrip s in if is_space c then rest else c ∷ s

  unfoldable pub rstrip : Text → Text
  rstrip [] = []
  rstrip (c ∷ s) = elim (rstrip s) [ [] ↦ if is_space c then [] else c ∷ [] | d ∷ r ↦ c ∷ d ∷ r ]

  -- s.strip()
  unfoldable pub strip : Text → Text
  unfolding lstrip rstrip
  strip s = rstrip (lstrip s)

  -- `strobj.strip()`, and then every run of spaces is cut down to one
  unfoldable pub remove_multiple_spaces : Text → Text
  remove_multiple_spaces strobj = squeeze b' ' (strip strobj)

  -- `command.split(sep=" ")`: the arguments that `_local_async_exec` runs
  unfoldable pub argv : Text → List Text
  unfolding remove_multiple_spaces
  argv command = split b' ' (remove_multiple_spaces command)

-- the characters at which `splitlines()` ends a line
unfoldable pub is_line_end : ℕ → Bool
is_line_end c =
    (leb 10 c && leb c 13) || (leb 28 c && leb c 30) || c == 0x85 || c == 0x2028 || c == 0x2029

abbrev cons_line : ℕ → List Text → List Text
cons_line c [] = (c ∷ []) ∷ []
cons_line c (l ∷ ls) = (c ∷ l) ∷ ls

-- s.splitlines(): "\r\n" ends one line, and an end of line at the end adds no line.
unfoldable pub split_lines : Text → List Text
unfolding is_line_end
split_lines [] = []
split_lines (c ∷ []) = if is_line_end c then [] ∷ [] else (c ∷ []) ∷ []
split_lines (c ∷ d ∷ s) =
    let after_two = [] ∷ split_lines s in
    let rest = split_lines (d ∷ s) in
    if c == 13 && d == 10 then after_two else if is_line_end c then [] ∷ rest else cons_line c rest

module _ ⦃u : Unicode⦄ where
  -- `cell.strip()`, if something is left
  stripped_cells : List Text → List Text
  unfolding strip
  stripped_cells [] = []
  stripped_cells (cell ∷ cells) = elim (strip cell) [
    | [] ↦ stripped_cells cells
    | c ∷ s ↦ (c ∷ s) ∷ stripped_cells cells
  ]

  rows : List Text → List (List Text)
  unfolding stripped_cells
  rows [] = []
  rows (line ∷ lines) = stripped_cells (split b' ' (replace 9 b' ' line)) ∷ rows lines

  unfoldable pub output_to_table : Text → List (List Text)
  unfolding rows
  output_to_table output = rows (split_lines output)

  unfoldable pub output_to_lines : Text → List Text
  unfolding stripped_cells
  output_to_lines output = stripped_cells (split_lines output)

-- s.rpartition(":"): what stands before the last colon, and what stands behind it
abbrev cons_before : ℕ → Option (Text × Text) → Option (Text × Text)
cons_before c none = none
cons_before c (some (before, after)) = some (c ∷ before, after)

unfoldable pub last_colon : Text → Option (Text × Text)
last_colon [] = none
last_colon (c ∷ s) = elim (last_colon s) [
  | none ↦ if c == b':' then some ([], s) else none
  | some p ↦ cons_before c (some p)
]

abbrev pub or_whole : Text → Option (Text × Text) → Text × Text
or_whole s none = ([], s)
or_whole s (some p) = p

unfoldable pub get_namespace_cluster_id : Text → Text × Text
unfolding last_colon
get_namespace_cluster_id cluster_uuid = or_whole cluster_uuid (last_colon cluster_uuid)

-- The flags of the loop of `_parse_helm_status_service_info`.
pub record Flags : Type 0 where
  pub first_line_skipped : Bool
  pub service_found : Bool

abbrev is_header : List Text → Bool
is_header (x ∷ y ∷ r) = text_eq x (codes "==>")
is_header _ = false

abbrev is_service_header : List Text → Bool
is_service_header (x ∷ y ∷ r) = text_eq x (codes "==>") && text_eq y (codes "v1/Service")
is_service_header _ = false

service_names : List (List Text) → Flags → List Text
service_names [] f = []
service_names ([] ∷ lines) f = service_names lines f
service_names ((cell ∷ cells) ∷ lines) f =
    let next = service_names lines in
    if f.service_found
    then (if is_header (cell ∷ cells)
        then next (record { first_line_skipped = false; service_found = false })
        else if f.first_line_skipped
        then cell ∷ next f
        else next (record f { first_line_skipped = true }))
    else (if is_service_header (cell ∷ cells)
        then next (record f { service_found = true })
        else next f)

-- The first cells of the rows of each table under a header "==> v1/Service", but for its first row.
unfoldable pub parse_helm_status_service_info : List (List Text) → List Text
unfolding service_names
parse_helm_status_service_info resources =
    service_names resources (record { first_line_skipped = false; service_found = false })
