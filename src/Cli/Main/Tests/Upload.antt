-- ===== src/Cli/Main/Tests/Upload.antt =====
-- A share that takes two bytes at a time, and a local file that gives three.
use krystallos.Common
use krystallos.Common.{
  ℕ, List, [], ◌∷◌, ◌++◌, ◌≡◌, refl, ap, ap₂, ◌∙◌, inr, some, none, min, pos, arith, length, drop,
  u64_mod, codes, length-take,
}
use krystallos.Core.Error.{ok}
use krystallos.Core.FileHandle.Contract.{exact_of_take}
use krystallos.Core.FileHandle.Memory.{Never, IsRead-capped}
use krystallos.Smb.Libsmb2.{Libsmb2}
use krystallos.Smb.SmbPath.{to_smb_path}
use krystallos.Smb.Errors.{windows_errno}
use krystallos.Smb.Operations.{windows_flags}
use krystallos.Smb.RemoteFile.Stores.{Stores}
use krystallos.Smb.Connection.{configured}
use krystallos.Smb.Backend.{smb_driver}
use krystallos.Smb.Backend.Created.{ShareKeeps}
use krystallos.Smb.Tests.{memory, five, Has, a_path}
use krystallos.Cli.Upload.Contract.{Failure}
use krystallos.Cli.Commands.{Host}
use krystallos.Cli.Commands.Streamed.{Printed}
use krystallos.Cli.Main.{Cli, put, registry, run, options_of}
use krystallos.Cli.Main.Hosted.{hosted}
use krystallos.Cli.Main.Reached.{Reached}
use krystallos.Cli.Main.PutOverSmb.{Uploading, Targets, run-PutOverSmb}
use krystallos.Cli.Main.Tests.Share.{
  connector, terminal, local, uri, cli, world, film, strings, smb-IsScheme, is_smb, parsed, named,
  texts, speakable,
}

abbrev taking : Libsmb2 (List ℕ)
taking = record memory {
  open_path = λ c s flags. (some 7, []);
  pwrite = λ c h bytes offset. (pos (length (Common.take 2 bytes)), c ++ Common.take 2 bytes);
}

-- The process is what the local file has left.
abbrev giving : Host (List ℕ)
giving = record terminal {
  open_source = λ path g. (ok 4, five);
  source_len = λ n g. (ok 5, g);
  read_source =
      λ n len g. (ok (Common.take (min len 3) g), drop (length (Common.take (min len 3) g)) g);
}

abbrev Keeps : List ℕ → List ℕ → Type 0
Keeps c content = c ≡ content

abbrev Left : ℕ → List ℕ → List ℕ → Type 0
Left n g rest = g ≡ rest

taking-Stores : Stores taking windows_errno Has Keeps Never
taking-Stores = record {
  pwrites = λ c handle content bytes e small. inr (
    refl,
    omega (arith, length-take 2 bytes),
    ap₂ (λ a b. a ++ b) e (exact_of_take 2 (Common.take 2 bytes) bytes refl),
  );
  fsyncs = λ c handle content e. e;
  closes = λ c id handle content e. e;
}

giving-Uploading : Uploading taking windows_errno giving Has Keeps Left Never
giving-Uploading = record {
  stores = taking-Stores;
  supplies = λ n g rest len e. (
    rw (← e) (IsRead-capped 3 g 0 len (omega arith)),
    ap (λ l. drop (length (Common.take (min len 3) g)) l) e,
  );
}

abbrev upload : Cli
upload = record cli { command = put uri a_path.raw (codes "film") }

upload-Reached : Reached connector taking windows_errno upload uri (9 ∷ []) five (9 ∷ [])
unfolding configured options_of
upload-Reached = record {
  scheme = codes "SMB";
  rest = codes "nas/films";
  parsed = film;
  whole = refl;
  valid = smb-IsScheme;
  is_smb = is_smb;
  parses = parsed;
  reaches = record {
    spawned = 9 ∷ [];
    networked = 9 ∷ [];
    fresh = five;
    strings = strings;
    spawns = refl;
    starts = refl;
    allocates = refl;
    texts = texts;
    accepts = refl;
  };
}

upload-Targets : Targets connector taking windows_errno windows_flags giving Has upload world 4 five
upload-Targets = record {
  uri = uri;
  path = a_path.raw;
  src = codes "film";
  vfs_path = a_path;
  context = five;
  reached_g = 9 ∷ [];
  sourced = five;
  total = 5;
  asks = refl;
  reached = upload-Reached;
  names = named;
  sources = refl;
  measures = refl;
  creates = record {
    text = to_smb_path a_path;
    handle = 7;
    opened = [];
    speakable = speakable;
    opens = refl;
    empty = refl;
  };
  word = omega arith;
}

run-PutOverSmb_example : Printed (ShareKeeps Keeps 0) (Failure Never) five (
    run
      (hosted giving)
      (registry local (smb_driver connector taking windows_errno windows_flags))
      u64_mod
      6
      upload
      world)
run-PutOverSmb_example =
    run-PutOverSmb connector taking windows_errno windows_flags giving Has Keeps Left Never
      giving-Uploading local refl upload world 4 five upload-Targets u64_mod 6 five (omega arith)
      (omega arith) refl
