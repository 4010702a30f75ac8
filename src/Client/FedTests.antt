-- ===== src/Client/FedTests.antt =====
-- A client that reads the buffer of one stream for one block (src/client/client_admin.cpp), and the
-- theorem on a read of the buffer.
use Prim.Native.String.{String}
use tosdata_bridge.Prelude.{ℕ, ◌≡◌, refl, ◌∙◌, true, ◌&&◌, List, [], ◌∷◌, arith, if◌then◌else◌}
use tosdata_bridge.Prelude.Action.{ok}
use tosdata_bridge.Topics.Enum.{Topic, topic_value, ElementType, element_type, double_type, last}
use tosdata_bridge.Topics.Map.{topic_eq, text_eq}
use tosdata_bridge.Elements.Any.{AnyStream, Argument, typed, data_stream}
use tosdata_bridge.Elements.Pushes.{own_value, push-own_type}
use tosdata_bridge.Elements.Laws.{data_stream_laws}
use tosdata_bridge.Elements.Tests.{small_values}
use tosdata_bridge.Block.Interface.{StreamClass}
use tosdata_bridge.Block.State.{Block, new_block}
use tosdata_bridge.Block.Invariant.{new_block-IsValid}
use tosdata_bridge.Block.Limit.{new_registry}
use tosdata_bridge.Shared.State.{Buffer, synced}
use tosdata_bridge.Shared.Ring.{IsRing}
use tosdata_bridge.Shared.Writes.{route_all}
use tosdata_bridge.Client.State.{TosdBlock, Client}
use tosdata_bridge.Client.Holders.{holds}
use tosdata_bridge.Client.Safety.{has, IsSafe}
use tosdata_bridge.Client.Feeding.{stream_in, changed, pushes}
use tosdata_bridge.Client.Fed.{news, extracted, extract_into_blocks-route_all}
use tosdata_bridge.Getters.Untouched.{AllValid}

abbrev Streams : Type 0
Streams = AnyStream ℕ ℕ ℕ

abbrev streams : StreamClass ElementType (Argument ℕ ℕ ℕ) ℕ ℕ Streams
streams = data_stream small_values

abbrev element_of : Topic → ElementType
element_of t = element_type (topic_value t)

-- A double and a stamp.
abbrev cast : ℕ × ℕ → Argument ℕ ℕ ℕ × ℕ
cast x = (typed (own_value double_type x.0), x.1)

-- A ring of three places, of which the next is the last.
abbrev ring : Buffer (ℕ × ℕ)
ring = record {
  loop_seq = 4;
  elem_size = 48;
  beg_offset = 20;
  end_offset = 164;
  next_offset = 116;
  memory = λ offset. (0, 0);
}

ring-IsRing : IsRing 3 2 ring
ring-IsRing = record {
  next = refl;
  end = refl;
  within = omega arith;
  spaced = omega arith;
  fits = omega arith;
  wrapped = omega arith;
}

abbrev spy : Block String Topic Streams
spy = new_block streams element_of ("SPY" ∷ []) (last ∷ []) 3 true

abbrev db : TosdBlock Streams
db = record { timeout = 2000; block = spy; item_precache = []; topic_precache = [] }

abbrev client : Client Streams
client = record {
  dde_blocks = ("A", db) ∷ [];
  buffers = ((last, "SPY"), (synced ring, "A" ∷ [])) ∷ [];
  registry = new_registry;
}

client-live :
    (id : String) (t : Topic) (i : String)
    → holds id t i client.buffers ≡ true
    → has id t i client.dde_blocks ≡ true
unfolding new_block
client-live id t i h = ground (arith, h)

client-IsSafe : IsSafe client
client-IsSafe = record { live = client-live; all_read = ((refl, (refl, tt)), tt) }

client-AllValid : AllValid (data_stream_laws small_values) element_of client
client-AllValid = (
  new_block-IsValid (data_stream_laws small_values) element_of ("SPY" ∷ []) (last ∷ []) 3 true,
  tt,
)

last-double : element_of last ≡ double_type
unfolding element_type
last-double = refl

-- Five values come in, of which the ring keeps three.
abbrev five : List (ℕ × ℕ)
five = (10, 1) ∷ (11, 2) ∷ (12, 3) ∷ (13, 4) ∷ (14, 5) ∷ []

extract_into_blocks-route_all_example :
    let e =
      extracted streams cast last "SPY" (λ n id. true) five ring ("A" ∷ []) client.dde_blocks in
    (e.0 ≡ ok tt)
    × (e.1.0 ≡ synced (route_all five ring))
    × ((k j : String) (u : Topic)
        → stream_in k j u e.1.1 ≡ (
            if (text_eq.beq "SPY" j && topic_eq.beq last u) && holds k last "SPY" client.buffers
            then changed
                (pushes streams (λ m. true) (news streams cast 3 five))
                (stream_in k "SPY" last client.dde_blocks)
            else stream_in k j u client.dde_blocks))
extract_into_blocks-route_all_example =
    extract_into_blocks-route_all (data_stream_laws small_values) element_of cast last "SPY"
      (λ got x p sound h. push-own_type small_values got x.1 double_type p (h ∙ last-double) x.0) 3
      2 five (λ n id. true) ("A" ∷ []) client ring-IsRing (omega arith) client-IsSafe
      client-AllValid refl
