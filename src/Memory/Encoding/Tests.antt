-- ===== src/Memory/Encoding/Tests.antt =====
-- Runs of encoding.ts at concrete bytes.
use browser_cortex.Common.{◌≡◌, refl, none, some, [], ◌∷◌, units, arith}
use browser_cortex.Memory.Encoding.RoundTrip.{from_base64-to_base64}
use browser_cortex.Memory.Encoding.{to_base64, from_base64}

to_test : to_base64 (77 ∷ 97 ∷ 110 ∷ 255 ∷ []) ≡ units "TWFu/w=="
unfolding to_base64
to_test = refl

from_test : from_base64 (units "TWFu/w==") ≡ some (77 ∷ 97 ∷ 110 ∷ 255 ∷ [])
unfolding from_base64
from_test = refl

from_empty : from_base64 [] ≡ none
unfolding from_base64
from_empty = refl

from_base64-to_base64_example :
    from_base64 (to_base64 (77 ∷ 97 ∷ 110 ∷ 255 ∷ [])) ≡ some (77 ∷ 97 ∷ 110 ∷ 255 ∷ [])
from_base64-to_base64_example =
    from_base64-to_base64 77 (97 ∷ 110 ∷ 255 ∷ [])
      (omega arith, (omega arith, (omega arith, (omega arith, tt))))
