-- ===== src/Constants.antt =====
-- The constants of api/api.go.
use Prim.Native.String.{String}
use go_playit.Base.{List, [], ◌∷◌}

abbrev pub tunnel_type_mc_bedrock : String
tunnel_type_mc_bedrock = "minecraft-bedrock"

abbrev pub tunnel_type_mc_java : String
tunnel_type_mc_java = "minecraft-java"

abbrev pub tunnel_type_valheim : String
tunnel_type_valheim = "valheim"

abbrev pub tunnel_type_terraria : String
tunnel_type_terraria = "terraria"

abbrev pub tunnel_type_starbound : String
tunnel_type_starbound = "starbound"

abbrev pub tunnel_type_rust : String
tunnel_type_rust = "rust"

abbrev pub tunnel_type_7_days : String
tunnel_type_7_days = "7days"

abbrev pub tunnel_type_unturned : String
tunnel_type_unturned = "unturned"

abbrev pub port_type_both : String
port_type_both = "both"

abbrev pub port_type_tcp : String
port_type_tcp = "tcp"

abbrev pub port_type_udp : String
port_type_udp = "udp"

abbrev pub region_global : String
region_global = "global"

abbrev pub region_smart_global : String
region_smart_global = "smart-global"

abbrev pub region_north_america : String
region_north_america = "north-america"

abbrev pub region_europe : String
region_europe = "europe"

abbrev pub region_asia : String
region_asia = "asia"

abbrev pub region_india : String
region_india = "india"

abbrev pub region_south_america : String
region_south_america = "south-america"

abbrev pub port_types : List String
port_types = port_type_both ∷ port_type_tcp ∷ port_type_udp ∷ []

abbrev pub tunnel_types : List String
tunnel_types =
    tunnel_type_mc_bedrock ∷ tunnel_type_mc_java ∷ tunnel_type_valheim ∷ tunnel_type_terraria
    ∷ tunnel_type_starbound ∷ tunnel_type_rust ∷ tunnel_type_7_days ∷ tunnel_type_unturned ∷ []

abbrev pub regions : List String
regions =
    region_smart_global ∷ region_global ∷ region_north_america ∷ region_europe ∷ region_asia
    ∷ region_india ∷ region_south_america ∷ []
