-- ===== src/Entry.antt =====
-- src/duplicacy_entry.go: the entries of a snapshot, one for each file, directory or link.
pub mod Order
pub mod Check
pub mod Codec
use Prim.Native.Nat.{bit_and}
use duplicacy.Prelude.{
  ℕ, zero, suc, ◌+◌, ◌-◌, ◌^◌, ◌==◌, Bool, true, false, not, ◌&&◌, ◌||◌, List, [], ◌∷◌, ◌++◌,
  Option, none, some, if◌then◌else◌, is_empty,
}
use duplicacy.Prelude.Int.{ℤ, pos, negsuc, ltb_ℤ}
use duplicacy.Prelude.Int64.{◌==ℤ◌, leb_ℤ, add64, sub64}

-- Go's `string` and `[]byte`: bytes.
abbrev pub Text : Type 0
Text = List ℕ

abbrev pub Attributes : Type 0
Attributes = List (Text × Text)

pub record Entry : Type 0 where
  pub path : Text
  pub size : ℤ
  pub time : ℤ
  pub mode : ℕ
  pub link : Text
  pub hash : Text
  pub uid : ℤ
  pub gid : ℤ
  pub start_chunk : ℤ
  pub start_offset : ℤ
  pub end_chunk : ℤ
  pub end_offset : ℤ
  pub attributes : Option Attributes

-- os.ModeDir, os.ModeSymlink, and os.ModeType, the bits of every kind but a regular file.
abbrev pub mode_dir : ℕ
mode_dir = 2 ^ 31

abbrev pub mode_symlink : ℕ
mode_symlink = 2 ^ 27

abbrev pub mode_type : ℕ
mode_type = 2 ^ 31 + 2 ^ 27 + 2 ^ 26 + 2 ^ 25 + 2 ^ 24 + 2 ^ 21 + 2 ^ 19

unfoldable pub is_file : Entry → Bool
is_file entry = bit_and entry.mode mode_type == 0

unfoldable pub is_dir : Entry → Bool
is_dir entry = not (bit_and entry.mode mode_dir == 0)

unfoldable pub is_link : Entry → Bool
is_link entry = not (bit_and entry.mode mode_symlink == 0)

unfoldable pub is_complete : Entry → Bool
is_complete entry = leb_ℤ (pos 0) entry.size

ends_in_slash : Text → Bool
ends_in_slash [] = false
ends_in_slash (c ∷ []) = c == b'/'
ends_in_slash (c ∷ d ∷ s) = ends_in_slash (d ∷ s)

unfoldable pub create_entry : Text → ℤ → ℤ → ℕ → Entry
unfolding ends_in_slash
create_entry path size time mode = record {
  path =
      let slashed = path ++ b'/' ∷ [] in
      (if not (is_empty path) && not (ends_in_slash path) && not (bit_and mode mode_dir == 0)
        then slashed
        else path);
  size = size;
  time = time;
  mode = mode;
  link = [];
  hash = [];
  uid = negsuc 0;
  gid = negsuc 0;
  start_chunk = pos 0;
  start_offset = pos 0;
  end_chunk = pos 0;
  end_offset = pos 0;
  attributes = none;
}

unfoldable pub is_same_as : Entry → Entry → Bool
unfolding add64 sub64
is_same_as entry other =
    entry.size ==ℤ other.size
    && leb_ℤ entry.time (add64 other.time (pos 1))
    && leb_ℤ (sub64 other.time (pos 1)) entry.time
