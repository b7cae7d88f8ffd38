-- ===== src/Errno.antt =====
-- The error codes that the modelled functions return (`errno` values and those of
-- src/braft/errno.pb.h; `erequest` is brpc's), with `ok` for 0 and `minus_one` for -1.
use quorumkit.Prelude.{Bool, true, false}

pub data Code : Type 0 where
  ok minus_one einval erange eio eperm ebusy estop : Code
  ehigher_term_request ehigher_term_response evote_for_candidate enew_leader : Code
  eleader_conflict eraft_timed_out eleader_removed ecatchup estate_machine estale enoent : Code
  eset_peer enode_shutdown ebad_node etransfer_leadership ereadonly eagain ecanceled erequest
        etimedout :
      Code

-- `butil::Status::ok`
abbrev pub is_ok : Code → Bool
is_ok ok = true
is_ok c = false
