-- ===== src/Message.antt =====
-- protocol/message.h: commands, requests and responses.
use reactor_kv.Bytes.{Bytes, bytes}

-- enum class CommandType, without the k
pub data CommandType : Type 0 where
  unknown put get del exists size clear ping quit : CommandType

-- enum class StatusCode
pub data StatusCode : Type 0 where
  ok not_found error pong bye : StatusCode

pub record Request : Type 0 where
  pub command : CommandType
  pub key : Bytes
  pub value : Bytes

pub record Response : Type 0 where
  pub status : StatusCode
  pub message : Bytes

-- Request()
abbrev pub no_request : Request
no_request = record { command = CommandType.unknown; key = bytes ""; value = bytes "" }

-- Response::ok and the other factories
abbrev pub ok_response : Bytes → Response
ok_response msg = record { status = StatusCode.ok; message = msg }

abbrev pub not_found_response : Response
not_found_response = record { status = StatusCode.not_found; message = bytes "" }

abbrev pub error_response : Bytes → Response
error_response msg = record { status = StatusCode.error; message = msg }

abbrev pub pong_response : Response
pong_response = record { status = StatusCode.pong; message = bytes "" }

abbrev pub bye_response : Response
bye_response = record { status = StatusCode.bye; message = bytes "" }

-- commandToString
pub command_to_string : CommandType → Bytes
command_to_string CommandType.put = bytes "PUT"
command_to_string CommandType.get = bytes "GET"
command_to_string CommandType.del = bytes "DEL"
command_to_string CommandType.exists = bytes "EXISTS"
command_to_string CommandType.size = bytes "SIZE"
command_to_string CommandType.clear = bytes "CLEAR"
command_to_string CommandType.ping = bytes "PING"
command_to_string CommandType.quit = bytes "QUIT"
command_to_string CommandType.unknown = bytes "UNKNOWN"
