-- ===== src/Client/Print.antt =====
-- `log_client_t` of src/client.c.
use aca_bsim.Common.{List, [], ◌∷◌, ◌++◌, Option, none, some}
use aca_bsim.Common.Int.{pos}
use aca_bsim.Platform.{Platform}
use aca_bsim.Output.{Piece, to_stderr, line}
use aca_bsim.Client.{Client}

unfoldable pub log_client_t : {p : Platform} → Option Client → List (Piece p)
log_client_t none = to_stderr "Error: Client is NULL.\n" ∷ []
log_client_t (some client) =
    line "Client ID: " (pos client.id)
    ++ line "  Arrival Time: " client.service_stat.arrival_time
    ++ line "  Wait Time: " client.service_stat.wait_time
    ++ line "  Start Service Time: " client.service_stat.start_service_time
    ++ line "  Service Time: " client.service_stat.total_time
    ++ line "  Finish Time: " client.service_stat.finish_time
    ++ line "  Disability Type: " (pos client.disability_type)
    ++ line "  Destination: " (pos client.destination)
