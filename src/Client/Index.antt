-- ===== src/Client/Index.antt =====
-- How `main` of src/main.rs takes one of its three hard-coded keys from the text of `peer_addr`, and
-- how it ends on a bad command line. Characters are their code points. The parser of socket addresses
-- and the listeners are parameters.
use bitcoin_client.Prelude.{
  ℕ, ◌+◌, ◌-◌, ◌<◌, ◌≡◌, ◌⊎◌, Bool, true, replicate, List, [], ◌∷◌, ◌++◌, Option, get_elem?, none,
  some, ◌>>=◌, if◌then◌else◌, ◌&&◌, leb,
}
use bitcoin_client.Types.Crypto.{Crypto}
use bitcoin_client.Api.{parse_uint, u64_mod}
use bitcoin_client.Client.{Client}
use bitcoin_client.Client.Start.{all_public_keys, start}

-- `chars().last()`
unfoldable pub last_char : List ℕ → Option ℕ
last_char [] = none
last_char (ch ∷ []) = some ch
last_char (ch ∷ next ∷ chars) = last_char (next ∷ chars)

-- `to_digit(10)`
unfoldable pub to_digit : ℕ → Option ℕ
to_digit ch = if leb 48 ch && leb ch 57 then some (ch - 48) else none

unfoldable pub public_key_index : List ℕ → Option ℕ
unfolding last_char to_digit
public_key_index peer_addr = last_char peer_addr >>= λ ch. to_digit ch

-- What the command line gives, as texts.
pub record CommandLine : Type 0 where
  pub peer_addr : List ℕ
  pub api_addr : List ℕ
  pub p2p_workers : List ℕ

-- The parser of socket addresses, and whether a listener can be bound to one.
pub record Host (Addr : Type 0) : Type 0 where
  pub parse : List ℕ → Option Addr
  pub binds : Addr → Bool

-- `main` has started its threads, or ended the process by `process::exit(1)`. A panic is `none`.
pub data Started : Type 0 where
  running : Client → Started
  exited : Started

-- `parse(..).unwrap_or_else(|e| { .. process::exit(1) })`
unfoldable pub or_exit : {A : Type 0} → Option A → (A → Option Started) → Option Started
or_exit none next = some exited
or_exit (some a) next = next a

abbrev with_workers : ℕ → Client → Client
with_workers p2p_workers client = record client { buffers = replicate p2p_workers [] }

module _ (c : Crypto) {Addr : Type 0} (host : Host Addr) where
  -- `main`, with the texts of its command line: the server's socket is bound before the generator is
  -- set up, the one of the API at the end.
  unfoldable pub start_at : CommandLine → Option Started
  unfolding public_key_index or_exit
  start_at line = all_public_keys c >>= λ keys. public_key_index line.peer_addr >>= λ index.
      get_elem? keys index >>= λ public_key. or_exit (host.parse line.peer_addr) (λ p2p_addr.
        or_exit (host.parse line.api_addr) (λ api_addr.
          if host.binds p2p_addr
          then (start c index 0 >>= λ client.
              or_exit (parse_uint u64_mod line.p2p_workers) (λ p2p_workers.
                if host.binds api_addr
                then some (running (with_workers p2p_workers client))
                else none))
          else none))

-- The text ends with the digit of a hard-coded key.
abbrev pub EndsWithKey : List ℕ → Type 0
EndsWithKey peer_addr =
    (front : List ℕ) × (index : ℕ) × (index < 3) × (peer_addr ≡ front ++ (48 + index) ∷ [])

module _ {Addr : Type 0} (host : Host Addr) where
  abbrev pub CanRun : Option Addr → Option Addr → Option ℕ → Type 0
  CanRun p2p_addr api_addr workers =
      ((x : Addr) × (p2p_addr ≡ some x) × (host.binds x ≡ true))
      × ((y : Addr) × (api_addr ≡ some y) × (host.binds y ≡ true))
      × ((n : ℕ) × (workers ≡ some n))

  abbrev pub MustExit : Option Addr → Option Addr → Option ℕ → Type 0
  MustExit p2p_addr api_addr workers =
      (p2p_addr ≡ none)
      ⊎ ((api_addr ≡ none)
          ⊎ ((workers ≡ none) × ((x : Addr) × (p2p_addr ≡ some x) × (host.binds x ≡ true))))

module _ {Addr : Type 0} (host : Host Addr) (client : Client) where
  -- `main` after the keys, for what the parsers give.
  abbrev later : Option Addr → Option Addr → Option ℕ → Option Started
  later p2p_addr api_addr workers = or_exit p2p_addr (λ x. or_exit api_addr (λ y.
      if host.binds x
      then or_exit workers
          (λ n. if host.binds y then some (running (with_workers n client)) else none)
      else none))
