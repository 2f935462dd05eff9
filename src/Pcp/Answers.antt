-- ===== src/Pcp/Answers.antt =====
-- pkg/pcp/pcp.go and natpmp.go: an answer belongs to one of the two protocols, and a request that
-- comes back is no answer.
use vapora.Base.{ℕ, ◌<◌, ◌≡◌, refl, Bool, true, false, ◌&&◌, ◌||◌, arith, Bytes, Result, ok, err}
use vapora.Net.{Ip}
use vapora.Pcp.{
  PcpError, pcp_request, parse_pcp_response, natpmp_address_request, natpmp_map_request,
  natpmp_opcode, parse_natpmp_response,
}

abbrev pub is_answer {ℓ} : {A : Type ℓ} → Result PcpError A → Bool
is_answer (ok a) = true
is_answer (err e) = false

-- Whether either parser takes the bytes for an answer.
abbrev pub taken : Bytes → Bool
taken wire = is_answer (parse_pcp_response wire) || is_answer (parse_natpmp_response wire)

-- No bytes are an answer of both protocols.
pub parse_pcp_response-parse_natpmp_response :
    (wire : Bytes)
    → is_answer (parse_pcp_response wire) && is_answer (parse_natpmp_response wire) ≡ false
unfolding parse_pcp_response parse_natpmp_response
parse_pcp_response-parse_natpmp_response wire = ground arith

-- A request of either protocol that is sent back, by whatever echoes, is taken for an answer of
-- neither: PCP requests with opcodes below 128, and NAT-PMP's two.
pub taken-requests :
    (opcode lifetime protocol internal external : ℕ) (client : Ip) (payload request : Bytes)
    → opcode < 128
    → natpmp_map_request protocol internal external lifetime ≡ ok request
    → (taken (pcp_request opcode lifetime client payload) ≡ false)
      × (taken natpmp_address_request ≡ false)
      × (taken request ≡ false)
unfolding parse_pcp_response parse_natpmp_response pcp_request natpmp_address_request
    natpmp_map_request natpmp_opcode
taken-requests opcode lifetime protocol internal external client payload request h e =
    (ground arith, refl, ground arith)
