-- ===== src/Query/Operators.antt =====
-- Keys of query statements: a field, a mode and an operator.
use Prim.Native.Char.{Char}
use Prim.Native.String.{[] as empty, ◌∷◌ as char_then, ◌++◌ as str_append}
use Prim.Native.String.append
use fluvius_py.Common.{◌≡◌, refl, String, true, false, Option, [], ◌∷◌, str_eq, or_default}
use fluvius_py.Exec.{ok}
use fluvius_py.Query.Statements.{is_separator, split, or_none, from_parts, operator_statement}

-- No character of the text is a separator.
abbrev pub IsPlain : String → Type 0
IsPlain empty = Unit {0}
IsPlain (char_then c s) = (is_separator c ≡ false) × IsPlain s

split_plain : (s : String) → IsPlain s → split s ≡ (s, [])
unfolding split
split_plain empty h = refl
split_plain (char_then c s) (h, hs) = rw (split_plain s hs) (rw h refl)

split-append :
    (s : String) (c : Char) (t : String)
    → IsPlain s
    → is_separator c ≡ true
    → IsPlain t
    → split (str_append s (char_then c t)) ≡ (s, (char_then c empty, t) ∷ [])
unfolding split
split-append empty c t h sep k =
    rw (append.nil (char_then c t)) (rw (split_plain t k) (rw sep refl))
split-append (char_then d s) c t (h, hs) sep k =
    rw (append.cons d s (char_then c t)) (rw (split-append s c t hs sep k) (rw h refl))

-- A field or none, a mode and an operator that are written one after the other are read back.
pub operator_statement-append :
    (field : Option String) (c : Char) (operator : String)
    → IsPlain (or_default field "")
    → or_none (or_default field "") ≡ field
    → is_separator c ≡ true
    → IsPlain operator
    → str_eq operator "" ≡ false
    → operator_statement (str_append (or_default field "") (char_then c operator))
      ≡ ok (record { field = field; operator = operator; mode = char_then c empty })
unfolding operator_statement from_parts
operator_statement-append field c operator plain named sep k given =
    rw (split-append (or_default field "") c operator plain sep k) (rw named (rw given refl))
