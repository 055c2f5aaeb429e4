-- ===== src/Base/Text.antt =====
-- Go's + on strings.

use Prim.Native.String.{String}

unfoldable pub join : String → String → String
join String.[] b = b
join (String.◌∷◌ c a) b = String.◌∷◌ c (join a b)
