-- ===== src/Errors.antt =====
-- The texts that PB_RETURN_ERROR and PB_SET_ERROR are called with (pb_decode.c, pb_encode.c).
use breakpoint.Base.{Option, none, some}

pub data ErrMsg : Type 0 where
  end_of_stream io_error varint_overflow invalid_wire_type parent_stream_too_short : ErrMsg
  array_overflow invalid_field_type no_malloc_support callback_failed : ErrMsg
  missing_required_field invalid_data_size integer_too_large bytes_overflow : ErrMsg
  size_too_large string_overflow invalid_field_descriptor : ErrMsg
  incorrect_fixed_length_bytes_size stream_full array_max_size_exceeded : ErrMsg
  callback_error submsg_size_changed bytes_size_exceeded : ErrMsg

-- PB_SET_ERROR: the first message stays.
abbrev pub set_error : Option ErrMsg → ErrMsg → Option ErrMsg
set_error none msg = some msg
set_error (some old) msg = some old
