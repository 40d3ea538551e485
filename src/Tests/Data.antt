-- ===== src/Tests/Data.antt =====
-- A small configuration, its requests, and concrete stand-ins for what lies outside the program.
use da_proxy.Prelude.Int.{pos}
use da_proxy.Proxy.Router.{BackendsConfig}
use da_proxy.Prelude.{ℕ, ◌+◌, ◌*◌, ◌/◌, ◌<◌, [], ◌∷◌, none, ◌==◌, ltb, lookup, arith, true}
use da_proxy.Prelude.Text.{Text, codes}
use da_proxy.Proxy.Float.{Float, IsOrdered}
use da_proxy.Proxy.Decode.{Json}
use da_proxy.Proxy.Balancer.{Draw}
use da_proxy.Proxy.Height.{HeightTracker}
use da_proxy.Auth.Token.{TokenInfo}

-- Whole numbers in place of floats, with weights that add up to ten.
abbrev pub numbers : Float
numbers = record {
  add = λ a b. (a + b) / 10;
  mul = λ a b. a * b;
  div = λ a b. a / b;
  lt = ltb;
  is_zero = λ a. a == 0;
  of_int = λ n. n;
  million = 1000000;
  ewma_alpha = 3;
  ewma_rest = 7;
  exploration_rate = 10;
  max = 1000000000;
}

abbrev pub IsSmall : ℕ → Type 0
IsSmall n = n < 1000000000

pub numbers-IsOrdered : IsOrdered numbers IsSmall
numbers-IsOrdered = record {
  lt_asymm = λ a b p q h. ground arith;
  lt_cotrans = λ a b c p q r h. ground arith;
  lt_max = λ a p. ground arith;
}

abbrev pub old_block : Text
old_block = codes "{\"method\":\"header.GetByHeight\",\"params\":[5]}"

abbrev pub nameless : Text
nameless = codes "{\"params\":[5]}"

-- Answers for the two requests above.
abbrev pub decoder : Json
decoder = record {
  batch = λ _. none;
  request = λ body. lookup body ((old_block, codes "header.GetByHeight") ∷ (nameless, []) ∷ []);
  params = λ body. lookup body ((old_block, codes "[5]") ∷ (nameless, codes "[5]") ∷ []);
  error = λ _. none;
  elements = λ raw. lookup raw ((codes "[5]", codes "5" ∷ []) ∷ []);
  fields = λ _. none;
  string = λ _. none;
}

abbrev pub backends : BackendsConfig
backends = record {
  celestia_app_rpc = codes "http://app" ∷ [];
  celestia_node_rpc = codes "http://node1" ∷ codes "http://node2" ∷ [];
  celestia_node_archival_rpc = codes "http://old" ∷ [];
  celestia_app_archival_rpc = [];
  celestia_app_grpc = [];
  celestia_app_p2p = [];
  pruning_window = pos 10;
}

abbrev pub tracker : HeightTracker
tracker = record { head_height = pos 100; pruning_window = pos 10 }

abbrev pub draw : Draw
draw = record { roll = 50; pick = λ n. 0 }

abbrev pub reader : TokenInfo
reader = record {
  name = codes "reader";
  enabled = true;
  rate_limit = pos 5;
  scope = codes "read-only";
  allowed_methods = codes "header.*" ∷ [];
  expires_at = none;
}
