-- ===== src/Raft/Samples.antt =====
-- src/raft/: an encoder and a fresh peer, for the tests.

use nexus_mind.Prelude.{ℕ, refl, false, Option, none, some, List, [], arith, length, get_elem?}
use nexus_mind.Prelude.Dict.{nat_eq}
use nexus_mind.Raft.State.{Raft, Gob, Value, Persister, Moment, make}
use nexus_mind.Raft.Election.{RequestVoteArgs, RequestVoteReply}
use nexus_mind.Raft.Replication.{}
use nexus_mind.Raft.Application.{}
use nexus_mind.Raft.Cluster.{}

abbrev pub Bytes : Type 0
Bytes = List (Value ℕ)

-- An encoder that keeps the values as they are.
abbrev pub plain : Gob ℕ Bytes
plain = record {
  encode = λ vs. vs;
  decode = λ b i. get_elem? b i;
  len = λ b. length b;
  no_bytes = [];
  decode-encode = λ vs i. refl;
  encode_pos = λ v vs. omega arith;
  len-no_bytes = refl;
}

abbrev pub some_or {ℓ} : {A : Type ℓ} → Option A → A → A
some_or none a = a
some_or (some b) a = b

abbrev pub empty_disk : Persister Bytes
empty_disk = record { raftstate = []; snapshot = [] }

abbrev pub fresh : Raft ℕ Bytes
fresh = make plain 3 0 empty_disk

abbrev pub start_time : Moment
start_time = record { now = 0; rand = 0 }

abbrev pub ask : ℕ → ℕ → RequestVoteArgs
ask term candidate = record {
  term = term;
  candidate_id = candidate;
  last_log_index = 0;
  last_log_term = 0;
}

abbrev pub no_vote : RequestVoteReply
no_vote = record { term = 0; vote_granted = false }
