-- ===== src/Backend/Server.antt =====
-- `UnixFdServer` of memory_backend.cpp: it hands a block's file descriptor to every client that
-- connects. The worker thread is `serve_client`, once for every turn of its loop.
use ros2_cuda_ipc.Base.{
  ℕ, zero, suc, ◌-◌, not, Bool, true, false, Option, none, some, if◌then◌else◌,
}
use ros2_cuda_ipc.Cuda.{
  bind, unlink, listen, accept, shutdown, sendmsg, close, M, pure, ◌>>=◌, ◌>>◌, perform, is_ok,
}
use ros2_cuda_ipc.Importer.{open_socket, sun_path_size}
use Prim.Native.String.{String, slice}

-- `listen_fd` is -1, here `none`, and `running_` false unless the server is started.
pub record UnixFdServer : Type 0 where
  pub path : String
  pub fd : ℕ
  pub listen_fd : Option ℕ

close_listener : Option ℕ → M (Unit {0})
close_listener none = pure tt
close_listener (some sock) = do perform (shutdown sock); perform (close sock); pure tt

-- `stop`.
unfoldable pub stop : UnixFdServer → M UnixFdServer
unfolding close_listener
stop s = do
  close_listener s.listen_fd
  perform (unlink s.path)
  pure (record s { listen_fd = none })

give_up : UnixFdServer → ℕ → M (UnixFdServer × Bool)
give_up s sock = do perform (close sock); pure (s, false)

-- `start`. `strncpy` cuts a path that does not fit.
unfoldable pub start : UnixFdServer → M (UnixFdServer × Bool)
unfolding stop give_up open_socket
start s = do
  stopped ← stop s
  sock ← open_socket
  if not (is_ok sock) then pure (stopped, false) else do
    perform (unlink s.path)
    bound ← perform (bind sock.value (slice s.path 0 (sun_path_size - 1)))
    if not (is_ok bound) then give_up stopped sock.value else do
      listening ← perform (listen sock.value)
      if not (is_ok listening)
          then give_up stopped sock.value
          else pure (record stopped { listen_fd = some sock.value }, true)

-- One turn of `run`, with `send_fd`: a client that is accepted is sent the descriptor and closed.
unfoldable pub serve_client : UnixFdServer → ℕ → M (Unit {0})
serve_client s listen_fd = do
  client ← perform (accept listen_fd)
  if not (is_ok client)
      then pure tt
      else do perform (sendmsg client.value s.fd); perform (close client.value); pure tt

-- `run`, with the number of turns that find the server running.
unfoldable pub run : ℕ → UnixFdServer → ℕ → M (Unit {0})
run zero s listen_fd = pure tt
run (suc turns) s listen_fd = do serve_client s listen_fd; run turns s listen_fd
