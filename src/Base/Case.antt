-- ===== src/Base/Case.antt =====
-- `to_lowercase` and `to_uppercase`, as far as the code compares their results with ASCII text: the
-- letters of ASCII, and the three other characters whose counterpart is one ASCII letter, the Kelvin
-- sign, the dotless i and the long s. The rest stand for themselves.
use Prim.Native.Nat.{ℕ, ◌+◌, ◌-◌}
use mathlib.Core.Bool.{◌&&◌}
use mathlib.Core.List.{map}
use socket_io.Base.Tests.{leb, ◌==◌, if◌then◌else◌}
use socket_io.Base.Lists.{Str}

abbrev pub lower : ℕ → ℕ
lower c = if leb b'A' c && leb c b'Z' then c + 32 else if c == 0x212a then b'k' else c

abbrev pub upper : ℕ → ℕ
upper c =
    if leb b'a' c && leb c b'z'
    then c - 32
    else if c == 0x131
    then b'I'
    else if c == 0x17f
    then b'S'
    else c

unfoldable pub to_lowercase : Str → Str
to_lowercase = map lower

unfoldable pub to_uppercase : Str → Str
to_uppercase = map upper
