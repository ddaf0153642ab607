-- ===== src/Msgpack.antt =====
-- What the program relies on of the msgpack library (a parameter of the model), the tuples of
-- arguments that go through it, and src/dousi/common/msgpack_utils.h.
mod Defs
mod Plain
pub use Defs.{Codec, Types, nil, cons, Tuple, objects, Msgpack}
unfoldable pub use Defs.{pack_args_to_buffer}
pub use Plain.{plain, plain_string, number}
