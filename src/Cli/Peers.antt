-- ===== src/Cli/Peers.antt =====
-- src/gruezi/peers.rs and the peers action of src/cli/actions/peers.rs.
use gruezi.Base.{ℕ, zero, suc, ◌-◌, Bool, List, [], ◌∷◌, ◌++◌, if◌then◌else◌, length}
use gruezi.Base.Result.{Result, ok, err}
use gruezi.Text.{Text, codes, text_eq}
use gruezi.Cli.{Line, println}

pub data PeerStatus : Type 0 where
  healthy unreachable unknown : PeerStatus

-- `impl Display for PeerStatus`
display_status : PeerStatus → Text
display_status healthy = codes "Healthy"
display_status unreachable = codes "Unreachable"
display_status unknown = codes "Unknown"

pub record PeerInfo : Type 0 where
  pub id : Text
  pub address : Text
  pub status : PeerStatus
  pub last_seen : Text

-- `list_peers`
unfoldable pub list_peers : Result Text (List PeerInfo)
list_peers = ok []

spaces : ℕ → Text
spaces zero = []
spaces (suc n) = 0x20 ∷ spaces n

-- `{:<width$}`, which counts the characters.
padded : ℕ → Text → Text
unfolding spaces
padded width t = t ++ spaces (width - length t)

json_row : PeerInfo → Text → Line
unfolding display_status
json_row p comma = println (
    codes "  {\"id\":\""
    ++ (p.id
        ++ (codes "\",\"address\":\""
            ++ (p.address
                ++ (codes "\",\"status\":\""
                    ++ (display_status p.status
                        ++ (codes "\",\"last_seen\":\""
                            ++ (p.last_seen ++ (codes "\"}" ++ comma)))))))))

-- A comma after each but the last.
json_rows : List PeerInfo → List Line
unfolding json_row
json_rows [] = []
json_rows (p ∷ []) = json_row p [] ∷ []
json_rows (p ∷ q ∷ ps) = json_row p (codes ",") ∷ json_rows (q ∷ ps)

json_lines : List PeerInfo → List Line
unfolding json_rows
json_lines [] = println (codes "{\"peers\":[]}") ∷ []
json_lines (p ∷ ps) =
    println (codes "{\"peers\":[") ∷ (json_rows (p ∷ ps) ++ (println (codes "]}") ∷ []))

yaml_rows : List PeerInfo → List Line
unfolding display_status
yaml_rows [] = []
yaml_rows (p ∷ ps) =
    println (codes "  - id: " ++ p.id)
    ∷ println (codes "    address: " ++ p.address)
    ∷ println (codes "    status: " ++ display_status p.status)
    ∷ println (codes "    last_seen: " ++ p.last_seen)
    ∷ yaml_rows ps

yaml_lines : List PeerInfo → List Line
unfolding yaml_rows
yaml_lines [] = println (codes "peers: []") ∷ []
yaml_lines (p ∷ ps) = println (codes "peers:") ∷ yaml_rows (p ∷ ps)

-- `Display` of the status writes its word whatever the width is.
table_rows : List PeerInfo → List Line
unfolding padded display_status
table_rows [] = []
table_rows (p ∷ ps) =
    println (
      padded 15 p.id
      ++ (0x20
          ∷ (padded 20 p.address ++ (0x20 ∷ (display_status p.status ++ (0x20 ∷ p.last_seen))))))
    ∷ table_rows ps

table_lines : List PeerInfo → List Line
unfolding table_rows
table_lines [] =
    println (codes "No peers found")
    ∷ println []
    ∷ println (codes "ID    ADDRESS    STATUS    LAST_SEEN")
    ∷ println (codes "─────────────────────────────────────")
    ∷ []
table_lines (p ∷ ps) =
    println (codes "ID              ADDRESS              STATUS         LAST_SEEN")
    ∷ println (codes "────────────────────────────────────────────────────────────────")
    ∷ table_rows (p ∷ ps)

-- The match on the format.
unfoldable pub peers_lines : Text → Bool → List PeerInfo → List Line
unfolding json_lines yaml_lines table_lines text_eq
peers_lines format verbose peers =
    if text_eq format (codes "json")
    then json_lines peers
    else if text_eq format (codes "yaml")
    then yaml_lines peers
    else if text_eq format (codes "table")
    then table_lines peers
    else (if verbose
        then println
            (codes "Unknown format '" ++ (format ++ codes "', falling back to table output"))
          ∷ []
        else [])
      ++ table_lines peers

listed : List Line → Text → Bool → Result Text (List PeerInfo) → List Line × Result Text (Unit {0})
unfolding peers_lines
listed lines format verbose (ok peers) = (lines ++ peers_lines format verbose peers, ok tt)
listed lines format verbose (err e) = (lines, err e)

-- `run`
unfoldable pub run_peers : Text → Bool → List Line × Result Text (Unit {0})
unfolding listed list_peers
run_peers format verbose =
    listed (if verbose then println (codes "Output format: " ++ format) ∷ [] else []) format verbose
      list_peers
