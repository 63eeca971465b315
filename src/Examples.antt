-- ===== src/Examples.antt =====
-- The theorems at concrete inputs: a network with one exposed buffer, and small targets of
-- src/MemoryBackend.cpp, src/PmemBackend.cpp and src/AbtIOBackend.cpp.
mod Targets
mod Settings
mod Client
mod Stores
mod Access
mod Cuts
mod Durables
mod Ledgers
mod Files
mod Parts
mod Services
mod Setups
mod Migrations
use mochi_warabi.Prelude.{
  ℕ, ◌+◌, ◌≡◌, refl, sym, ◌∙◌, String, Bool, true, false, List, [], ◌∷◌, length, replicate, arith,
  leb, length-replicate,
}
use mochi_warabi.Run.{Run, done, undef, Ends, Ends-if, ◌>>=◌}
use mochi_warabi.Bytes.{Bytes, load, store}
use mochi_warabi.Bytes.Laws.{load_done, length-slice}
use mochi_warabi.TargetHandle.Stored.{load_all, store_all}
use mochi_warabi.Network.{Network, IsFaithful, IsPrompt}
use mochi_warabi.Provider.{Unset}

-- Every bulk is the buffer that was exposed last.
abbrev pub one_buffer : Network
one_buffer = record {
  Remote = Bytes;
  Endpoint = Unit {0};
  Bulk = Unit {0};
  lookup = λ address. done tt;
  pull = λ w e b offset n. load w offset n;
  push = λ w e b offset d. store w offset d;
  expose = λ w e d. (tt, d);
  contents = λ w e b. w;
}

length-load : (b : Bytes) (off n : ℕ) (d : Bytes) → load b off n ≡ done d → length d ≡ n
unfolding load
length-load b off n d h = ground (arith, length-slice b off n)

pub one_buffer-IsFaithful : IsFaithful one_buffer
one_buffer-IsFaithful = record {
  pull-expose = λ w e d n h. load_all d n (sym h);
  contents-expose = λ w e buf. refl;
  push-expose = λ w e buf d h. (d, store_all buf d (sym h), refl);
  length-pull = λ w e b off n d h. length-load w off n d h;
}

load_prompt : (b : Bytes) (off n : ℕ) → Ends (λ d. Unit {0}) (load b off n)
unfolding load
load_prompt b off n = Ends-if (λ d. Unit {0}) _ _ (leb (off + n) (length b)) tt tt

store_prompt : (b : Bytes) (off : ℕ) (d : Bytes) → Ends (λ w. Unit {0}) (store b off d)
unfolding store
store_prompt b off d = Ends-if (λ w. Unit {0}) _ _ (leb (off + length d) (length b)) tt tt

pub one_buffer-IsPrompt : IsPrompt one_buffer
one_buffer-IsPrompt = record {
  lookup_ends = λ address. tt;
  pull_ends = λ w e b offset n. load_prompt w offset n;
  push_ends = λ w e b offset d. store_prompt w offset d;
}

-- New memory is taken to be zero.
abbrev pub zeros : Unset
zeros = record { region_id = replicate 16 0; buffer = λ n. replicate n 0 }

pub zeros-length : (n : ℕ) → length (zeros.buffer n) ≡ n
zeros-length n = length-replicate n 0
