-- ===== src/Asio.antt =====
-- What boost.asio reports to the handlers of src/client/carrot_async_channel.cpp and
-- src/server/carrot_async_server.cpp.
use carrot_rpc.Prelude.{Bytes, text}

-- boost::system::error_code
pub data Error : Type 0 where
  no_error eof : Error
  error : Bytes → Error

abbrev pub message : Error → Bytes
message no_error = text "Success"
message eof = text "End of file"
message (error what) = what
