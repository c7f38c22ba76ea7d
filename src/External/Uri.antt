-- ===== src/External/Uri.antt =====
-- The site that a client calls: `HCACHE_HOST`, and what the parser of URIs (`http::Uri`) makes of it
-- with a path behind it. A path of letters, digits and `-` `.` `/` `_` `~` is kept as it is; a URI
-- of more than 65534 bytes is not read.
use hcache.Base.{
  ℕ, ◌≤◌, ◌≡◌, Option, some, [], ◌∷◌, ◌++◌, Text, length, leb, Bool, true, ◌&&◌, ◌||◌, ◌==◌,
}

unfoldable pub is_plain : ℕ → Bool
is_plain b =
    (leb 0x2d b && leb b 0x39)
    || (leb 0x41 b && leb b 0x5a)
    || (b == 0x5f)
    || (leb 0x61 b && leb b 0x7a)
    || (b == 0x7e)

unfoldable pub all_plain : Text → Bool
unfolding is_plain
all_plain [] = true
all_plain (b ∷ t) = is_plain b && all_plain t

-- A path that stays what it is behind a host.
pub record Fits (host t : Text) : Type 0 where
  pub plain : all_plain t ≡ true
  pub short : length (host ++ t) ≤ 65534

pub record Site : Type 0 where
  pub host : Text
  -- the path of a URI, if it can be read
  pub path_of : Text → Option Text
  pub path_of-Fits :
      (t : Text) → Fits host (0x2f ∷ t) → path_of (host ++ 0x2f ∷ t) ≡ some (0x2f ∷ t)
