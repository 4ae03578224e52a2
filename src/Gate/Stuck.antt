-- ===== src/Gate/Stuck.antt =====
-- skynet/service-src/service_gate.c: a header of four bytes with its highest bit set.
use Prim.Native.Nat.{bit_or}
use skynet_server.Common.{
  List, [], ◌∷◌, ◌++◌, ℕ, false, some, ◌+◌, ◌*◌, ◌-◌, ◌^◌, ◌≡◌, ◌≤◌, ◌<◌, length, ltb, refl, arith,
  ap, ◌∙◌, ap₂, subst, sym, map,
}
use skynet_server.Common.Int.{negsuc}
use skynet_server.Common.Bits.{or-fields}
use skynet_server.Buffer.{DataBuffer, Pool, header_of, to_int}
use skynet_server.Gate.{Gate, Connection, dispatch_message}
use skynet_server.Gate.Split.{split, split_on}
use skynet_server.Gate.Header.{Holds}
use skynet_server.Gate.Stream.{IsRouted, ending, packet_call, After}
use skynet_server.Gate.Chunks.{dispatch_message_lem}

module _ (b₀ b₁ b₂ b₃ : ℕ) (high : 128 ≤ b₀) (l₀ : b₀ < 256) (l₁ : b₁ < 256) (l₂ : b₂ < 256)
    (l₃ : b₃ < 256) where
  fields :
      bit_or (bit_or (bit_or (b₀ * 2 ^ 24) (b₁ * 2 ^ 16)) (b₂ * 2 ^ 8)) b₃
      ≡ b₀ * 2 ^ 24 + b₁ * 2 ^ 16 + b₂ * 2 ^ 8 + b₃
  fields =
      ap (λ t. bit_or (bit_or t (b₂ * 2 ^ 8)) b₃)
        (or-fields 24 b₀ (b₁ * 2 ^ 16) (omega arith)
          ∙ let e : b₀ * 2 ^ 24 + b₁ * 2 ^ 16 ≡ (b₀ * 2 ^ 8 + b₁) * 2 ^ 16 = omega arith in e)
      ∙ ap (λ t. bit_or t b₃)
          (or-fields 16 (b₀ * 2 ^ 8 + b₁) (b₂ * 2 ^ 8) (omega arith)
            ∙ let e : (b₀ * 2 ^ 8 + b₁) * 2 ^ 16 + b₂ * 2 ^ 8
                  ≡ ((b₀ * 2 ^ 8 + b₁) * 2 ^ 8 + b₂) * 2 ^ 8 =
                omega arith in
              e)
      ∙ or-fields 8 ((b₀ * 2 ^ 8 + b₁) * 2 ^ 8 + b₂) b₃ l₃
      ∙ omega arith

  header-negative :
      header_of 4 (b₀ ∷ b₁ ∷ b₂ ∷ b₃ ∷ [])
      ≡ negsuc (2 ^ 32 - 1 - (b₀ * 2 ^ 24 + b₁ * 2 ^ 16 + b₂ * 2 ^ 8 + b₃))
  unfolding header_of
  header-negative =
      let large : ltb (b₀ * 2 ^ 24 + b₁ * 2 ^ 16 + b₂ * 2 ^ 8 + b₃) (2 ^ 31) ≡ false =
        ground arith in
      ap to_int fields ∙ rw large refl

  pub split-high :
      (rest : List ℕ) → split 4 (b₀ ∷ b₁ ∷ b₂ ∷ b₃ ∷ rest) ≡ ([], some (b₀ ∷ b₁ ∷ b₂ ∷ b₃ ∷ rest))
  unfolding split_on
  split-high rest =
      let long : ltb (length (b₀ ∷ b₁ ∷ b₂ ∷ b₃ ∷ rest)) 4 ≡ false = ground arith in
      rw (long, header-negative) refl

-- A header of four bytes whose first byte is 128 or more, on a connection whose packets have
-- somewhere to go: whatever comes behind it, and however much it is, `dispatch_message` sends nothing and does not close the connection, but keeps all bytes.
pub high_header :
    (g : Gate) (id : ℕ) (c : Connection) (s bytes rest : List ℕ) (b₀ b₁ b₂ b₃ : ℕ)
    → 128 ≤ b₀
    → b₀ < 256
    → b₁ < 256
    → b₂ < 256
    → b₃ < 256
    → IsRouted g c
    → g.header_size ≡ 4
    → Holds g.header_size c.buffer s
    → s ++ bytes ≡ b₀ ∷ b₁ ∷ b₂ ∷ b₃ ∷ rest
    → (db' : DataBuffer) × (mp' : Pool) × (dispatch_message g id c bytes
        ≡ some ([], record c { buffer = db' }, mp'))
      × Holds g.header_size db' (s ++ bytes)
high_header g id c s bytes rest b₀ b₁ b₂ b₃ high l₀ l₁ l₂ l₃ routed four v all =
    let (db', mp', run, after, _) =
      dispatch_message_lem g id c s bytes routed (omega arith) (omega arith) v in
    let waits : split g.header_size (s ++ bytes) ≡ ([], some (s ++ bytes)) =
      ap₂ split four all
      ∙ split-high b₀ b₁ b₂ b₃ high l₀ l₁ l₂ l₃ rest
      ∙ ap (λ t. ([], some t)) (sym all) in
    (
      db',
      mp',
      run
          ∙ ap
              (λ r.
                some (map (packet_call g c) r.0 ++ ending id r.1, record c { buffer = db' }, mp'))
              waits,
      subst (λ r. After g.header_size db' r.1) waits after,
    )
