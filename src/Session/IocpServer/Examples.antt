-- ===== src/Session/IocpServer/Examples.antt =====
-- Tests of IOCPServer.h's model.
use unreal5_gas.Base.{true, some, [], ◌∷◌}
use unreal5_gas.Session.DoubleBuffer.{new_buffer}
use unreal5_gas.Session.PacketManager.{Server}
use unreal5_gas.Session.ClientInfo.{ClientInfo, handle}
use unreal5_gas.Session.IocpServer.{IocpServer}

abbrev client : ClientInfo
client = record {
  index = 0;
  iocp_handle = handle 4;
  is_connect = true;
  latest_closed_time_sec = 0;
  socket = some 9;
  send_data_queue = [];
  issued = [];
}

abbrev packets : Server
packets = record {
  users = record { max_user_cnt = 0; user_obj_pool = []; user_id_dictionary = [] };
  incoming = [];
  system_queue = [];
  db_queue = new_buffer;
  server_queue = new_buffer;
  sent = [];
}

abbrev serving : IocpServer
serving = record {
  client_infos = client ∷ [];
  client_cnt = 1;
  is_worker_run = true;
  packets = packets;
}
