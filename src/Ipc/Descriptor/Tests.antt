-- ===== src/Ipc/Descriptor/Tests.antt =====
-- IPC.cpp: descriptors by evaluation, and the theorems at concrete inputs.
use iacore.Base.{◌≡◌, refl, none, some, codes, format_u32, arith}
use iacore.ProcessOps.{split_arguments}
use iacore.Ipc.Descriptor.{
  IpcConnectionDescriptor, serialize, deserialize, session_descriptor, session_args,
}
use iacore.Ipc.Descriptor.RoundTrip.{first_argument, first_argument-session_args}

sample : IpcConnectionDescriptor
sample = record {
  socket_path = codes "/tmp/a.sock";
  shared_mem_path = codes "shm";
  shared_mem_size = 4096;
}

serialize-sample : serialize sample ≡ codes "/tmp/a.sock|shm|4096|"
unfolding serialize sample format_u32
serialize-sample = refl

deserialize_cut : deserialize (codes "/tmp/a.sock|shm|4096") ≡ none
unfolding deserialize
deserialize_cut = refl

first_argument-session_args_example :
    first_argument (split_arguments (session_args (session_descriptor 7 4194304)))
    ≡ some (session_descriptor 7 4194304)
first_argument-session_args_example = first_argument-session_args 7 4194304 (omega arith)
