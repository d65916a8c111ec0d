-- ===== src/Cli/Tests.antt =====
-- A terminal, a source and one file of a backend in memory, each moving two bytes at a time.
use krystallos.Common.{
  ℕ, min, List, [], ◌∷◌, ◌++◌, ◌≡◌, refl, ap, arith, none, Text, codes, length, take, drop, u64_mod,
  length-take, take_all, zero, suc, ◌∙◌,
}
use krystallos.Core.Error.{ok, err, backend}
use krystallos.Core.Entry.{file_metadata}
use krystallos.Core.VfsPath.{VfsPath, of_segments, new}
use krystallos.Core.VfsPath.Normal.{new-of_segments}
use krystallos.Core.FileHandle.{FileHandle}
use krystallos.Core.FileHandle.Contract.{Serves, exact_of_take}
use krystallos.Core.FileHandle.Memory.{Never, IsRead-capped}
use krystallos.Core.Run.{Run}
use krystallos.Core.Backend.{StorageBackend, full}
use krystallos.Core.Endpoint.{separator, every, to_lower}
use krystallos.Core.Endpoint.Parse.{IsScheme}
use krystallos.Core.Registry.{
  BackendRegistry, BackendDriver, Credentials, empty_registry, no_options, register, connect_with,
}
use krystallos.Core.Registry.Routing.{connect_with-register}
use krystallos.Cli.Transfer.{transfer_loop}
use krystallos.Cli.Transfer.Whole.{Appends}
use krystallos.Cli.Transfer.Zero.{Nothing, transfer_loop_zero}
use krystallos.Cli.Upload.Contract.{Uploads, Failure}
use krystallos.Cli.Commands.Uploaded.{Prepares, put-Stores}
use krystallos.Cli.Commands.{Host, cat, put}
use krystallos.Cli.Commands.Printed.{Opens, cat-Printed}
use krystallos.Cli.Commands.Streamed.{Printed}

record World : Type 0 where
  disk : List ℕ
  shown : List ℕ
  source : List ℕ

abbrev handle : FileHandle World
handle = record {
  read_at = λ w offset n. (ok (take (min n 2) (drop offset w.disk)), w);
  write_at = λ w offset content.
      (ok (min 2 (length content)), record w { disk = take offset w.disk ++ take 2 content });
  set_len = λ w n. (err (backend (codes "fixed")), w);
  flush = λ w. (ok tt, w);
  close = λ w. (ok tt, w);
  len = λ w. length w.disk;
}

abbrev show : List ℕ → Run World (Unit {0})
show bytes w = (ok tt, record w { shown = w.shown ++ bytes })

abbrev HasDisk : World → List ℕ → Type 0
HasDisk w file = w.disk ≡ file

abbrev HasShown : World → List ℕ → Type 0
HasShown w written = w.shown ≡ written

abbrev HasLeft : World → List ℕ → Type 0
HasLeft w rest = w.source ≡ rest

handle-Serves : Serves handle HasDisk Never
handle-Serves = record {
  reads = λ w file offset n q small. (rw (← q) (IsRead-capped 2 w.disk offset n (omega arith)), q);
}

show-Appends : Appends handle show HasDisk HasShown Never
show-Appends = record {
  writes = λ w file written bytes q o. (ap (λ s. s ++ bytes) o, q);
  reads_apart = λ w file written offset n q small o. o;
}

abbrev five : List ℕ
five = 10 ∷ 11 ∷ 12 ∷ 13 ∷ 14 ∷ []

abbrev world : World
world = record { disk = five; shown = 9 ∷ []; source = five }

transfer_loop_zero_example : Nothing HasShown Never (9 ∷ []) (transfer_loop handle show 0 1 0 world)
transfer_loop_zero_example =
    transfer_loop_zero handle show HasDisk HasShown Never handle-Serves show-Appends five (9 ∷ []) 0
      world refl refl

abbrev read_source : ℕ → Run World (List ℕ)
read_source n w = (ok (take (min n 2) w.source), record w { source = drop (min n 2) w.source })

abbrev storage : StorageBackend World
storage = record {
  endpoint = codes "mem://a";
  capabilities = full;
  list_entries = λ p w. (ok [], w);
  stat = λ p w. (ok (file_metadata 0), w);
  open_file = λ p mode w. (ok handle, w);
  remove_file = λ p w. (ok tt, w);
  remove_dir = λ p w. (ok tt, w);
  rename = λ p q w. (ok tt, w);
  copy = λ p q w. (ok 0, w);
  mkdir = λ p w. (ok tt, w);
  shutdown = λ w. (ok tt, w);
}

abbrev driver : BackendDriver World (StorageBackend World)
driver = record {
  scheme = codes "mem";
  description = [];
  connect = λ w e c options. (ok storage, w);
}

abbrev registry : BackendRegistry World (StorageBackend World)
registry = (register empty_registry driver).1

abbrev nobody : Credentials
nobody = record { username = none; password = none; domain = none }

abbrev a_path : VfsPath
a_path = of_segments (codes "a" ∷ [])

abbrev uri : Text
uri = codes "mem" ++ (separator ++ codes "x")

abbrev host : Host World
host = record {
  print = show;
  write_out = show;
  flush_out = λ w. (ok tt, w);
  create_file = λ path w. (ok 3, w);
  write_file = λ f. show;
  flush_file = λ f w. (ok tt, w);
  open_source = λ path w. (ok 4, w);
  source_len = λ f w. (ok 5, w);
  read_source = λ f. read_source;
  rfc3339 = λ t. [];
}

mem-IsScheme : IsScheme (codes "mem")
unfolding every
mem-IsScheme = record { nonempty = refl; valid = refl }

connects : (w : World) → connect_with registry w uri nobody no_options ≡ (ok storage, w)
unfolding to_lower
connects w =
    connect_with-register empty_registry driver w (codes "mem") (codes "x") nobody no_options
      mem-IsScheme

names : new a_path.raw ≡ ok a_path
names =
    new-of_segments (codes "a" ∷ [])
      (record { ordinary = refl; stays = refl; free = (refl, tt) }, tt)

a_path-Opens : Opens registry nobody no_options uri a_path.raw world storage handle world
a_path-Opens = record {
  connected = world;
  looked = world;
  vfs_path = a_path;
  metadata = file_metadata 0;
  connects = connects world;
  names = names;
  stats = refl;
  no_directory = refl;
  opens = refl;
}

cat-Printed_example :
    Printed HasShown Never
      (9 ∷ five)
      (cat host registry nobody no_options u64_mod 4 3 6 uri a_path.raw world)
cat-Printed_example =
    cat-Printed host registry nobody no_options HasDisk HasShown Never uri a_path.raw world world
      storage handle a_path-Opens handle-Serves show-Appends (λ w written o. o) (λ w written o. o)
      (λ w written o. o) u64_mod 4 3 6 five (9 ∷ []) (omega arith) (omega arith) (omega arith)
      (omega arith) refl refl

drop-length-take : (n : ℕ) (xs : List ℕ) → drop n xs ≡ drop (length (take n xs)) xs
drop-length-take zero xs = refl
drop-length-take (suc n) [] = refl
drop-length-take (suc n) (x ∷ xs) = drop-length-take n xs

take-min : (n : ℕ) (xs : List ℕ) → take n xs ≡ take (min n (length xs)) xs
take-min n xs = exact_of_take n (take n xs) xs refl ∙ ap (λ k. take k xs) (length-take n xs)

storage-Uploads : Uploads read_source handle HasLeft HasDisk Never
storage-Uploads = record {
  supplies = λ w rest content n l c. (
    (
      rw (← l) (IsRead-capped 2 w.source 0 n (omega arith)),
      rw (← l) (drop-length-take (min n 2) w.source),
    ),
    c,
  );
  stores = λ w rest content bytes l c small. (
    (
      omega arith,
      ap (λ d. take (length content) d ++ take 2 bytes) c
          ∙ ap (λ d. d ++ take 2 bytes) (take_all (length content) content (omega arith))
          ∙ ap (λ d. content ++ d) (take-min 2 bytes),
    ),
    l,
  );
}

abbrev blank : World
blank = record world { disk = [] }

a_path-Prepares :
    Prepares host registry nobody no_options uri a_path.raw [] blank storage 4 handle blank
a_path-Prepares = record {
  connected = blank;
  sourced = blank;
  measured = blank;
  vfs_path = a_path;
  total = 5;
  connects = connects blank;
  names = names;
  sources = refl;
  measures = refl;
  opens = refl;
}

put-Stores_example :
    Printed HasDisk
      (Failure Never)
      five
      (put host registry nobody no_options 6 uri a_path.raw [] blank)
put-Stores_example =
    put-Stores host registry nobody no_options HasLeft HasDisk Never uri a_path.raw [] blank blank
      storage 4 handle a_path-Prepares storage-Uploads (λ w content c. c) (λ w content c. c)
      (λ w content c. c) 6 five (omega arith) (omega arith) refl refl
