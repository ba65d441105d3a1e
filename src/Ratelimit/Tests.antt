-- ===== src/Ratelimit/Tests.antt =====
-- Requests with and without the header X-Forwarded-For.
use go_auto_mcp.Prelude.{◌≡◌, refl, [], codes, text_beq, trim_space}
use go_auto_mcp.Ratelimit.{extract_client_ip}

-- the header decides, whoever sends it
forwarded :
    extract_client_ip (record {
      forwarded_for = codes " 1.2.3.4 , 5.6.7.8";
      real_ip = codes "9";
      remote_addr = codes "8:1";
    })
    ≡ codes "1.2.3.4"
unfolding extract_client_ip text_beq trim_space
forwarded = refl

without_port :
    extract_client_ip (record { forwarded_for = []; real_ip = []; remote_addr = codes "[::1]:80" })
    ≡ codes "[::1]"
unfolding extract_client_ip text_beq trim_space
without_port = refl
