-- ===== src/Tests/Tunnel.antt =====
-- Streams through the tunnel: one with short lines, and one with a line of 64 KiB.
use mathlib.Core.List.{append-nil}
use ai_local.Prelude.{All, List, Text, [], ap, arith, codes, false, true, ◌++◌, ◌∷◌, ◌≡◌}
use ai_local.Proxy.Delivered.{tunnel_counts, tunnel_cut, tunnel_whole}
use ai_local.Proxy.Gate.{route_at}
use ai_local.Proxy.Filled.{IsShort}
use ai_local.Proxy.Pipe.{concat}
use ai_local.Proxy.Tunnel.{tunnel}
use ai_local.Tests.Config.{gateway, gateway-IsValid}
use ai_local.Tests.Streams.{length-letters, letters, letters_on_one_line}
use ai_local.Tests.Upstream.{claude_of_gateway, nothing_found, provider_found, route_found}
use ai_local.Usage.Lines.{max_token_size, raw_lines}
use ai_local.Usage.Stream.{parse_stream_reader}

-- A line that is cut in two by the reads.
abbrev reads : List Text
reads = codes "da" ∷ (codes "ta: {}" ++ b'\n' ∷ []) ∷ []

reads-IsShort : All IsShort (raw_lines [] (concat reads))
unfolding raw_lines
reads-IsShort = (omega arith, tt)

tunnel_whole_example : tunnel claude_of_gateway reads ≡ (concat reads, true)
tunnel_whole_example =
    tunnel_whole gateway (codes "/claude") (route_at gateway (codes "/claude")) claude_of_gateway
      reads gateway-IsValid route_found provider_found reads-IsShort

abbrev before : Text
before = codes "data: {}"

abbrev after : Text
after = codes "data: {}"

before-IsShort : All IsShort (raw_lines [] (before ++ b'\n' ∷ []))
unfolding raw_lines
before-IsShort = (omega arith, tt)

tunnel_cut_example :
    tunnel claude_of_gateway ((before ++ b'\n' ∷ []) ∷ (letters max_token_size ++ after) ∷ [])
    ≡ ((before ++ b'\n' ∷ []) ++ letters max_token_size, false)
tunnel_cut_example =
    tunnel_cut gateway (codes "/claude") (route_at gateway (codes "/claude")) claude_of_gateway
      ((before ++ b'\n' ∷ []) ∷ (letters max_token_size ++ after) ∷ []) before
      (letters max_token_size) after gateway-IsValid route_found provider_found
      (ap (λ rest. (before ++ b'\n' ∷ []) ++ rest) (append-nil (letters max_token_size ++ after)))
      before-IsShort (letters_on_one_line max_token_size)
      (omega (arith, length-letters max_token_size)) (λ e. cc)

tunnel_counts_example :
    parse_stream_reader nothing_found (tunnel claude_of_gateway reads).0 claude_of_gateway
    ≡ parse_stream_reader nothing_found (concat reads) claude_of_gateway
tunnel_counts_example =
    tunnel_counts gateway (codes "/claude") (route_at gateway (codes "/claude")) claude_of_gateway
      nothing_found reads gateway-IsValid route_found provider_found
