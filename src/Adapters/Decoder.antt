-- ===== src/Adapters/Decoder.antt =====
-- crates/agbox-adapters/src/adapter.rs: the errors and the bounded state of a decoder.
use agbox.Common.{ltb, length, if◌then◌else◌, []}
use Prim.Native.String.{String}
use agbox.Core.Base.{Text, Result, ok, err, max_decoder_state_bytes}

-- The variants that the states return.
pub data DecodeError : Type 0 where
  malformed : String → DecodeError
  state_too_large : DecodeError

pub record DecoderState : Type 0 where
  pub bytes : Text

abbrev pub empty : DecoderState
empty = record { bytes = [] }

-- `DecoderState::replace`, whose error leaves the state as it was.
unfoldable pub replace : DecoderState → Text → Result DecodeError DecoderState
replace state bytes =
    if ltb max_decoder_state_bytes (length bytes)
    then err state_too_large
    else ok (record { bytes = bytes })
