-- ===== src/Lib.antt =====
-- tab5-client: the firmware of a field terminal that provisions a Septentrio GNSS receiver over
-- USB, feeds it corrections from an NTRIP caster, reads its output and shows it on a touch panel.
--
-- Bytes from the receiver's first interface enter `gnss_state_feed` (main/gnss_state.c), which
-- hands them to the block parser of main/sbf_parser.c under one mutex; the screens read snapshots
-- of it. Text from its second interface enters `nmea_data_cb` (main/nmea_source.c), which keeps a
-- table of the satellites in view. After the receiver is plugged in, `mosaic_provision`
-- (main/mosaic_config.c) sends it the operator's settings, which live in the key-value store, and
-- then starts the stream. The corrections client (main/ntrip_client.c) pipes what the caster sends
-- to the receiver. The backlight controller (main/backlight.c) reads whether the stream is fresh
-- and what the touch detector (main/touch.c) saw last, and sets the panel's brightness
-- (`display_backlight` of main/display.c). The leveler (main/leveler.c, over main/cutfill.c and
-- main/fieldmap.c) turns snapshots of the position into a survey, a target plane and the volumes to
-- move. The logger (main/logger.c) writes both to the card once a second. main/wifi_sta.c joins the
-- network whose credentials are in the store, and then starts the corrections client and the web
-- server (main/web_server.c), whose pages set these credentials and send the receiver commands. The
-- form of main/settings_view.c edits the receiver's settings, main/map_view.c draws the field. The
-- work screen (main/status_screen.c) ticks the leveler's recorder and shows what it says, and its
-- buttons and the console (main/debug_console.c) are the operator's calls of all these parts.
--
-- Prelude and its children hold the shared lists, bytes, unsigned words and signed integers.
-- Float    C's float and double: bit patterns, with the machine's operations as a parameter.
-- Str      C strings: strlen, strncmp, strlcpy, atoi, %d.
-- Nvs      ESP-IDF's key-value store, a parameter: its operations and what is relied on of them.
-- Sbf      main/sbf_parser.c. Sbf/Fields the little-endian reads, Sbf/Crc `crc16_ccitt`,
--          Sbf/Blocks the records and the four decoders, Sbf/Feed `sbf_parser_feed` with one
--          function per part of its loop; Sbf/Framing says what a well-formed block is. The
--          modules under Sbf/Feed hold the proofs: Waiting (what stays buffered), Chunks (how
--          the input is cut), Parts, Rule and Provenance (where decoded values come from), Tally
--          (counters), Frames and Delivery (what a well-formed stream gives).
-- Gnss     main/gnss_state.c, with the lock and the freshness clock.
-- Nmea     main/nmea_source.c. Nmea/Fields how a sentence is split, Nmea/Sky the satellite table,
--          Nmea/Lines how the stream is cut into lines, Nmea/Sentence all of it together.
-- Mosaic   main/mosaic_config.c: the port settings, with their proofs in Mosaic/Config;
--          Mosaic/Commands `build_nmea_cmd` and `buf_contains`, Mosaic/Selection what the command
--          says, Mosaic/Link `send_acked` over a command channel (the interface that
--          `usb_cdc_send_command` of main/usb_cdc_source.c offers), Mosaic/Provision
--          `mosaic_provision`.
-- Usb      main/usb_cdc_source.c: the command channel (Usb/Command), the sweep over the
--          receiver's interfaces (Usb/Sweep), and the channel as main/mosaic_config.c uses it
--          (Usb/Channel).
-- Ntrip    main/ntrip_client.c. Ntrip/Stream one session, Ntrip/Pause the task's pauses,
--          Ntrip/Caster the address.
-- Cutfill  main/cutfill.c.
-- Fieldmap  main/fieldmap.c: the arrays and the polygon; Fieldmap/Surface the fitted surface,
--          Fieldmap/Volume `fieldmap_compute`, Fieldmap/Grid its loops.
-- Leveler  main/leveler.c: Leveler/Status its status, Leveler/Demo its demonstration field,
--          Leveler/Kept and Leveler/Planting what single calls keep to, Leveler/Invariant what
--          every run of calls does, Leveler/Recording the recorder and the plane fit.
-- Logger   main/logger.c. Logger/Discipline how it uses its file, Logger/Naming which one.
-- Wifi     main/wifi_sta.c. Wifi/Creds the credentials' way, Wifi/Events the event handler.
-- Web      main/web_server.c: the escaping of text and the decoding of form fields, with proofs in
--          Web/Escapes; Web/Admin the credentials, the body and the handlers, Web/Guard who may use
--          them, Web/Forms the body that the page posts and what `httpd_query_key_value` is relied
--          on to find in it, Web/Actions what the handlers do with it.
-- Map      main/map_view.c: rectangles (Map/Rect), lines (Map/Dots, Map/Strokes, Map/Lines) and
--          discs (Map/Disc) in its buffer; Map/Heat the whole map, Map/Fits that it fits. Map/Ints,
--          Map/Limits and Map/Visible have what keeps its coordinates within an int.
-- Settings  main/settings_view.c: the form; Settings/Edits what is edited is what is saved.
-- Screen   main/status_screen.c: the touch input and the state; Screen/Drawing the buttons, the
--          refresh and the change of screens, Screen/Runs and Screen/Shown what they keep to.
-- Console  main/debug_console.c: the leveler's commands, and in Console/Commands those of the
--          logger, the store and the receiver. Console/Joining and Console/Credentials have what
--          these do.
-- Power    main/board_power.c: the port expander; Power/Outputs its outputs.
-- Display  `display_backlight` of main/display.c.
-- Backlight  main/backlight.c: one function per branch of `tick`. Backlight/Safety has what one
--          tick keeps to, Backlight/Climb what a run of healthy ticks reaches.
-- Touch    main/touch.c: the report and `poll_task`; Touch/Debounce its detector.
-- Tests    runs on concrete input.
--
-- State is passed explicitly: a record per file of C statics, a function per C function or part of
-- one. Pointers and sizes are lists of bytes. Unsigned C arithmetic is on ℕ with the wrap of its
-- width written out; int is ℤ, and in main/map_view.c, whose coordinates come from floating point, a
-- sum or conversion that leaves the 32 bits of an int has no result. What the network, the store and the receiver answer is an argument.
-- The scan of the parser takes fuel, one more than the bytes it may look at; each round moves at
-- least one byte on, so the fuel is never used up. The drain of a reply takes as much fuel as its
-- buffer has room; each read but the last takes a byte. A line has fuel for a step of each of its
-- two differences. The loops of `fieldmap_compute` and of the map's cells count in floating point,
-- so whether they end rests on the additions: how many lead past the box is a hypothesis there,
-- and the fuel is more. The search for a log's name has the source's bound of 1000.
--
-- Not modelled: tasks and their scheduling, widgets and their layout, the status page's JSON, the
-- view of the satellites, the console's commands that only print, start-up, the bring-up
-- of the panel and of the touch controller, the USB host's task, and the vendor's drivers, which
-- are input and output for the most part.
pub mod Prelude
pub mod Float
pub mod Str
pub mod Sbf
pub mod Gnss
pub mod Display
pub mod Touch
pub mod Backlight
pub mod Nmea
pub mod Nvs
pub mod Mosaic
pub mod Ntrip
pub mod Cutfill
pub mod Fieldmap
pub mod Leveler
pub mod Usb
pub mod Web
pub mod Map
pub mod Logger
pub mod Wifi
pub mod Settings
pub mod Power
pub mod Screen
pub mod Console
mod Tests
