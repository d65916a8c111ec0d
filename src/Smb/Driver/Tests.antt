-- ===== src/Smb/Driver/Tests.antt =====
-- Endpoints that the tests of backend.rs name.
use krystallos.Common.{◌∷◌, ◌++◌, ◌≡◌, refl, none, some, codes}
use krystallos.Core.Error.{ok}
use krystallos.Smb.Driver.{ParsedEndpoint, parse, unless_empty}
use krystallos.Smb.Driver.Label.{IsShare, parse-parts}

abbrev nas : ParsedEndpoint
nas = record {
  server = codes "nas";
  share = codes "media";
  user = some (codes "bob");
  domain = none;
}

nas-IsShare : IsShare nas.server nas.share
nas-IsShare = record {
  server_named = refl;
  share_named = refl;
  no_slash = (refl, (refl, (refl, tt)));
  no_semicolon = (refl, (refl, (refl, tt)));
  no_at = (refl, (refl, (refl, tt)));
  one_word = (refl, (refl, (refl, (refl, (refl, tt)))));
}

parse-parts_example :
    parse (
      (codes "w" ++ b';' ∷ (codes "bob" ++ b'@' ∷ nas.server))
      ++ b'/' ∷ (nas.share ++ b'/' ∷ codes "x"))
    ≡ ok (record {
      server = nas.server;
      share = nas.share;
      user = unless_empty (some (codes "bob"));
      domain = unless_empty (some (codes "w"));
    })
parse-parts_example =
    parse-parts (codes "w") (codes "bob") nas.server nas.share (codes "x") nas-IsShare (refl, tt)
      (refl, tt) (refl, (refl, (refl, tt))) (refl, (refl, (refl, tt)))
