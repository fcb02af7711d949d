-- ===== src/Text/Laws.antt =====
-- `strip` leaves nothing to strip.
use Prim.Native.String.{String}
use muti_agent.Prelude.{◌≡◌, ◌≤◌, refl, false, arith, ap, ◌∙◌}
use muti_agent.Text.{is_empty, lstrip, rstrip, strip, text_length}

rstrip-rstrip : (s : String) → rstrip (rstrip s) ≡ rstrip s
unfolding rstrip
rstrip-rstrip String.[] = refl
rstrip-rstrip (String.◌∷◌ c s) = ground (arith, rstrip-rstrip s)

lstrip-rstrip : (s : String) → lstrip (rstrip (lstrip s)) ≡ rstrip (lstrip s)
unfolding rstrip lstrip
lstrip-rstrip String.[] = refl
lstrip-rstrip (String.◌∷◌ c s) = ground (arith, lstrip-rstrip s)

pub strip-strip : (s : String) → strip (strip s) ≡ strip s
unfolding strip
strip-strip s = ap rstrip (lstrip-rstrip s) ∙ rstrip-rstrip (lstrip s)

text_length-rstrip-le : (s : String) → text_length (rstrip s) ≤ text_length s
unfolding rstrip text_length
text_length-rstrip-le String.[] = omega arith
text_length-rstrip-le (String.◌∷◌ c s) = ground (arith, text_length-rstrip-le s)

text_length-lstrip-le : (s : String) → text_length (lstrip s) ≤ text_length s
unfolding lstrip text_length
text_length-lstrip-le String.[] = omega arith
text_length-lstrip-le (String.◌∷◌ c s) = ground (arith, text_length-lstrip-le s)

pub text_length-strip-le : (s : String) → text_length (strip s) ≤ text_length s
unfolding strip
text_length-strip-le s = omega (arith, text_length-rstrip-le (lstrip s), text_length-lstrip-le s)

pub text_length-pos : (s : String) → is_empty s ≡ false → 1 ≤ text_length s
unfolding text_length
text_length-pos String.[] h = cc
text_length-pos (String.◌∷◌ c s) h = omega arith
