-- ===== src/Cli/Format.antt =====
-- crates/krystallos-cli/src/format.rs: entries and metadata as text. The rendering of a time is a
-- library's, and a parameter; `human_bytes` goes by floating point and is left out.
use krystallos.Common.{
  ℕ, zero, suc, ◌-◌, [], ◌∷◌, ◌++◌, Option, none, some, Bool, true, false, Text, codes, length,
  decimal,
}
use krystallos.Core.Entry.{EntryKind, file, directory, symlink, other, SystemTime, Metadata, Entry}

abbrev pub kind_char : EntryKind → ℕ
kind_char directory = b'd'
kind_char file = b'f'
kind_char symlink = b'l'
kind_char other = b'?'

-- `{:?}` of the kind.
abbrev pub kind_name : EntryKind → Text
kind_name directory = codes "Directory"
kind_name file = codes "File"
kind_name symlink = codes "Symlink"
kind_name other = codes "Other"

abbrev pub spaces : ℕ → Text
spaces zero = []
spaces (suc n) = b' ' ∷ spaces n

-- `{:>width}`.
unfoldable pub pad_left : ℕ → Text → Text
pad_left width s = spaces (width - length s) ++ s

abbrev pub bool_text : Bool → Text
bool_text true = codes "true"
bool_text false = codes "false"

module _ (rfc3339 : SystemTime → Text) where
  abbrev pub time_cell : Option SystemTime → Text
  time_cell none = codes "-"
  time_cell (some t) = rfc3339 t

  unfoldable pub entry_line : Entry → Text
  unfolding pad_left decimal
  entry_line e =
      kind_char e.metadata.kind
      ∷ b' '
      ∷ (pad_left 12 (decimal e.metadata.len)
          ++ (b' ' ∷ (time_cell e.metadata.modified ++ (codes "  " ++ e.name))))

  unfoldable pub metadata_block : Text → Metadata → Text
  unfolding decimal
  metadata_block path m =
      (codes "path:     " ++ (path ++ b'\n' ∷ []))
      ++ ((codes "kind:     " ++ (kind_name m.kind ++ b'\n' ∷ []))
          ++ ((codes "size:     " ++ (decimal m.len ++ b'\n' ∷ []))
              ++ ((codes "modified: " ++ (time_cell m.modified ++ b'\n' ∷ []))
                  ++ ((codes "created:  " ++ (time_cell m.created ++ b'\n' ∷ []))
                      ++ ((codes "accessed: " ++ (time_cell m.accessed ++ b'\n' ∷ []))
                          ++ (codes "readonly: " ++ (bool_text m.read_only ++ b'\n' ∷ [])))))))
