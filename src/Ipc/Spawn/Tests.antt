-- ===== src/Ipc/Spawn/Tests.antt =====
-- IPC.cpp: `spawn_node` at concrete answers of the operating system.
use iacore.Base.{refl, true, some, replicate, arith}
use iacore.RingBuffer.{Memory}
use iacore.Ipc.Layout.{divide}
use iacore.Ipc.Node.{ConnectWorld}
use iacore.Ipc.Manager.{new_manager}
use iacore.Ipc.Spawn.{SpawnWorld}
use iacore.Ipc.Spawn.Connects.{IsConnected, spawn_node-connect}

abbrev memory : Memory
memory = record { write_offset = 0; read_offset = 0; capacity = 0; bytes = replicate 64 0 }

abbrev granting : SpawnWorld
granting = record {
  s_id_gen = 0;
  unix_socket = some 5;
  bound = true;
  listening = true;
  mapped = some 4096;
  moni_memory = memory;
  mino_memory = memory;
  process = some 100;
  active = true;
  process_id = 77;
  now = 10;
}

abbrev answering : ConnectWorld
answering = record { unix_socket = some 7; connected = true; mapped = some 8192 }

spawn_node-connect_example : IsConnected granting 512 5 4096 100 new_manager answering 8192
unfolding divide
spawn_node-connect_example =
    spawn_node-connect granting 512 5 4096 100 new_manager answering 7 8192 (omega arith)
      (omega arith)
      (record {
        made = refl;
        bound = refl;
        listening = refl;
        mapped = refl;
        started = refl;
        active = refl;
        moni_fits = omega arith;
        mino_fits = omega arith;
      })
      (record { made = refl; connected = refl; mapped = refl })
