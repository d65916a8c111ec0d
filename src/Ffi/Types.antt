-- ===== src/Ffi/Types.antt =====
-- crates/krystallos-ffi/src/types.rs: the data that crosses the boundary, and what it is made of.
pub mod Flags
pub mod Seal
pub mod Times
use krystallos.Common.{
  ℕ, ◌+◌, ◌*◌, ◌/◌, List, [], ◌++◌, Option, none, some, Bool, true, false, ltb, if◌then◌else◌, Text,
  codes, length, null, u64_mod, ℤ, pos, negsuc,
}
use krystallos.Smb.RemoteFile
use krystallos.Core.Entry
use krystallos.Core.Entry.{SystemTime}
use krystallos.Core.Backend
use krystallos.Core.FileHandle.{
  OpenMode, read_mode, write_mode, read_write_mode, create_new_mode, with_truncate,
}
use krystallos.Core.Registry.{Credentials, ConnectionOptions, no_options, set_option}
use krystallos.Smb.Driver.{opt_seal}
use krystallos.Ffi.Error.{KernelError, connection_lost}

pub data Kind : Type 0 where
  file directory symlink other : Kind

abbrev pub kind_from : Entry.EntryKind → Kind
kind_from Entry.file = file
kind_from Entry.directory = directory
kind_from Entry.symlink = symlink
kind_from Entry.other = other

pub record EntryMetadata : Type 0 where
  pub kind : Kind
  pub len : ℕ
  pub modified_ms : Option ℕ
  pub created_ms : Option ℕ
  pub accessed_ms : Option ℕ
  pub read_only : Bool

-- Whole milliseconds since the epoch, where they fit in 64 bits.
abbrev pub fitting : ℕ → Option ℕ
fitting ms = if ltb ms u64_mod then some ms else none

-- `duration_since` the epoch fails for a time before it.
abbrev pub since_epoch : ℤ → ℕ → Option ℕ
since_epoch (pos secs) nanos = fitting (secs * 1000 + nanos / 1_000_000)
since_epoch (negsuc secs) nanos = none

unfoldable pub to_millis : Option SystemTime → Option ℕ
to_millis none = none
to_millis (some t) = since_epoch t.secs t.nanos

unfoldable pub from_core : Entry.Metadata → EntryMetadata
from_core m = record {
  kind = kind_from m.kind;
  len = m.len;
  modified_ms = to_millis m.modified;
  created_ms = to_millis m.created;
  accessed_ms = to_millis m.accessed;
  read_only = m.read_only;
}

pub record DirEntry : Type 0 where
  pub name : Text
  pub metadata : EntryMetadata

unfoldable pub from_entry : Entry.Entry → DirEntry
from_entry e = record { name = e.name; metadata = from_core e.metadata }

pub record OpenFlags : Type 0 where
  pub read : Bool
  pub write : Bool
  pub create : Bool
  pub create_new : Bool
  pub truncate : Bool

abbrev pub truncating : OpenFlags → OpenFlags
truncating f = record f { truncate = true }

abbrev pub read_only_flags : OpenFlags
read_only_flags = record {
  read = true;
  write = false;
  create = false;
  create_new = false;
  truncate = false;
}

abbrev pub write_only_flags : OpenFlags
write_only_flags = record {
  read = false;
  write = true;
  create = true;
  create_new = false;
  truncate = false;
}

abbrev pub read_write_flags : OpenFlags
read_write_flags = record {
  read = true;
  write = true;
  create = true;
  create_new = false;
  truncate = false;
}

abbrev pub create_exclusive_flags : OpenFlags
create_exclusive_flags = record {
  read = false;
  write = true;
  create = true;
  create_new = true;
  truncate = false;
}

abbrev pub access_mode : Bool → Bool → OpenMode
access_mode true true = read_write_mode
access_mode false true = write_mode
access_mode _ false = read_mode

unfoldable pub open_mode_from : OpenFlags → OpenMode
open_mode_from f =
    let accessed = access_mode f.read f.write in
    let exclusive = if f.create_new then create_new_mode else accessed in
    if f.truncate then with_truncate exclusive else exclusive

pub record SmbInfo : Type 0 where
  pub dialect : ℕ
  pub max_read_size : ℕ
  pub max_write_size : ℕ

-- Its fields are those of the backend's own record.
abbrev pub info_from : RemoteFile.SmbInfo → SmbInfo
info_from info = record {
  dialect = info.dialect;
  max_read_size = info.max_read_size;
  max_write_size = info.max_write_size;
}

-- The fields are those of the kernel's own record, one by one.
pub record Capabilities : Type 0 where
  pub random_read : Bool
  pub random_write : Bool
  pub atomic_rename : Bool
  pub set_len : Bool
  pub durable_flush : Bool
  pub modification_times : Bool

abbrev pub capabilities_from : Backend.Capabilities → Capabilities
capabilities_from c = record {
  random_read = c.random_read;
  random_write = c.random_write;
  atomic_rename = c.atomic_rename;
  set_len = c.can_set_len;
  durable_flush = c.durable_flush;
  modification_times = c.modification_times;
}

pub record ConnectRequest : Type 0 where
  pub uri : Text
  pub username : Option Text
  pub password : Option Text
  pub domain : Option Text
  pub smb_seal : Bool

abbrev pub request : Text → ConnectRequest
request uri = record {
  uri = uri;
  username = none;
  password = none;
  domain = none;
  smb_seal = false;
}

abbrev pub with_credentials : ConnectRequest → Text → Text → ConnectRequest
with_credentials q username password = record q {
  username = some username;
  password = some password;
}

abbrev pub with_domain : ConnectRequest → Text → ConnectRequest
with_domain q domain = record q { domain = some domain }

abbrev pub with_smb_seal : ConnectRequest → Bool → ConnectRequest
with_smb_seal q seal = record q { smb_seal = seal }

unfoldable pub into_parts : ConnectRequest → Text × Credentials × ConnectionOptions
into_parts q = (
  q.uri,
  record { username = q.username; password = q.password; domain = q.domain },
  (if q.smb_seal then set_option no_options opt_seal (codes "true") else no_options),
)

pub record ByteRange : Type 0 where
  pub offset : ℕ
  pub content : List ℕ

abbrev pub is_empty : ByteRange → Bool
is_empty r = null r.content

abbrev pub len_of : ByteRange → ℕ
len_of r = length r.content

unfoldable pub already_closed : Text → KernelError
already_closed what = connection_lost (codes "this " ++ (what ++ codes " has already been closed"))
