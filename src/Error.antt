-- ===== src/Error.antt =====
-- `Error` of lib.rs, with its `Display` text and its `source`.
use Prim.Native.String.{String, ◌++◌}
use event_manager.Prelude.{Option, none, some}
use event_manager.Os.{Os}

pub data Error (os : Os) : Type 0 where
  channel_send : Error os
  channel_recv : Error os
  event_fd : os.Errno → Error os
  epoll : os.Errno → Error os
  fd_already_registered : Error os
  invalid_id : Error os
  invalid_capacity : Error os

module _ {os : Os} where
  unfoldable pub fmt : Error os → String
  fmt channel_send = "event_manager: failed to send message to remote endpoint"
  fmt channel_recv = "event_manager: failed to receive message from remote endpoint"
  fmt (event_fd e) = "event_manager: failed to manage EventFd file descriptor: " ++ os.errno_text e
  fmt (epoll e) = "event_manager: failed to manage epoll file descriptor: " ++ os.errno_text e
  fmt fd_already_registered = "event_manager: file descriptor has already been registered"
  fmt invalid_id = "event_manager: invalid subscriber Id"
  fmt invalid_capacity = "event_manager: invalid ready_list capacity"

  unfoldable pub source : Error os → Option os.Errno
  source channel_send = none
  source channel_recv = none
  source (event_fd e) = some e
  source (epoll e) = some e
  source fd_already_registered = none
  source invalid_id = none
  source invalid_capacity = none
