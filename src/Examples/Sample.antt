-- ===== src/Examples/Sample.antt =====
-- An adaptor of `int`, and an spdlog that writes the text alone, for the examples.
use mathlib.Core.Logic.{dite, dif_pos}
use native.Mathlib.Bridge.{le_prop}
use native.Mathlib.Decide.{dec_lt}
use dousi.Prelude.{◌^◌, ◌≡◌, refl, true, [], ◌∷◌, Option, none, some, Bytes, leb}
use dousi.Msgpack.{Codec}
use dousi.Logging.{Spdlog, severity}
use dousi.Examples.Services.{Int32}

abbrev pub decode_int : Bytes → Option Int32
decode_int (n ∷ []) = dite (dec_lt n (2 ^ 32)) (λ h. some (n, h)) (λ _. none)
decode_int _ = none

pub decode_int-encode : (x : Int32) → decode_int (x.0 ∷ []) ≡ some x
decode_int-encode (n, small) =
    dif_pos {C = Option Int32} (dec_lt n (2 ^ 32)) le_prop small (λ h. some (n, h)) (λ _. none)

abbrev pub int : Codec Bytes Int32
int = record { encode = λ x. x.0 ∷ []; decode = decode_int; decode-encode = decode_int-encode }

abbrev pub spdlog : Spdlog
spdlog = record {
  rotating_logger = λ size files. true;
  format = λ file line text. text;
  should_log = λ logger message. leb (severity logger) (severity message);
  should_log_lem = λ logger message. refl;
}
