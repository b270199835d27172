-- ===== src/Sbf/Labels.antt =====
-- main/sbf_parser.c: the labels of solution types and errors.
use tab5_client.Prelude.{ℕ, ◌==◌, if◌then◌else◌, Bytes, codes}

unfoldable pub sbf_pvt_mode_str : ℕ → Bytes
sbf_pvt_mode_str t =
    if t == 0
    then codes "No PVT"
    else if t == 1
    then codes "Stand-Alone"
    else if t == 2
    then codes "Differential"
    else if t == 3
    then codes "Fixed location"
    else if t == 4
    then codes "RTK fixed"
    else if t == 5
    then codes "RTK float"
    else if t == 6
    then codes "SBAS"
    else if t == 7
    then codes "moving-base RTK fixed"
    else if t == 8
    then codes "moving-base RTK float"
    else if t == 10
    then codes "PPP"
    else codes "?"

unfoldable pub sbf_pvt_error_str : ℕ → Bytes
sbf_pvt_error_str e =
    if e == 0
    then codes "No Error"
    else if e == 1
    then codes "Not enough measurements"
    else if e == 2
    then codes "Not enough ephemerides"
    else if e == 3
    then codes "DOP too large"
    else if e == 4
    then codes "Residuals too large"
    else if e == 5
    then codes "No convergence"
    else if e == 6
    then codes "Not enough measurements after outlier rejection"
    else if e == 7
    then codes "Output prohibited (export laws)"
    else if e == 8
    then codes "Not enough differential corrections"
    else if e == 9
    then codes "Base coordinates unavailable"
    else if e == 10
    then codes "Ambiguities not fixed (RTK-fixed only requested)"
    else codes "?"
