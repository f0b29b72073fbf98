-- ===== src/Tests/Client.antt =====
-- A connection of the tests.
use mini_pubsub_broker.Base.{true, false, none, [], Bytes, refl}
use mini_pubsub_broker.Client.{SubClient}
use mini_pubsub_broker.Protocol.Request.{IsIdle}

-- Between two requests, with some bytes read and some waiting to be written.
abbrev pub client_with : Bytes → Bytes → SubClient
client_with buf out = record {
  fd = 5;
  id = [];
  ev = record { ev_read = true; ev_write = false; ev_persist = true };
  ev_pending = true;
  read_buf = buf;
  wbuf = out;
  req_type = 0;
  multi_bulk_len = 0;
  bulk_len = none;
  argc = 0;
  argv = [];
}

abbrev pub client : Bytes → SubClient
client buf = client_with buf []

pub client-IsIdle : (buf : Bytes) → IsIdle (client buf)
client-IsIdle buf = record { no_args = refl; no_count = refl; no_length = refl }
