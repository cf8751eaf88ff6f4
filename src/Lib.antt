-- ===== src/Lib.antt =====
-- ocserv, the VPN server under ocserv/Ocserv/src: what its main process, its security module and
-- its workers decide. A file that is named here without a path stands in that directory.
-- The main process owns the ban list (main-ban.c) and the addresses that it leases (ip-lease.c); the
-- security module, a process of its own, authenticates the clients and keeps their sessions
-- (sec-mod-db.c, sec-mod-auth.c, dispatched by sec-mod.c); a worker process serves each client
-- (worker-vpn.c) and limits its bandwidth (worker-bandwidth.c). The security module reports points to
-- main, which adds them to the ban list. The security module gives a client that completed its
-- authentication a cookie (cookies.c); the client's worker passes the cookie on to main (main-auth.c, main-misc.c), which asks
-- the security module to open a session (main-sec-mod-cmd.c) and tells the worker to go on. The worker
-- reads the client's HTTP requests (worker-http.c) and passes the client's password on to the security
-- module (worker-auth.c), and main passes the datagrams of the UDP socket on to
-- the workers (main.c). The passwords stand in a file that a tool changes (ocpasswd.c) and an
-- authentication module reads (auth/plain.c).
--
-- Base       lists, bytes, Boolean tests and the int return codes of vpn.h
-- Htable     the calls of ccan/htable: an interface, its operations and what is documented of
--            them, which each component takes as a parameter. A component's entry is found by one key: the
--            pair of its rehash and comparison functions. Assoc is an instance for the examples.
-- Ban        main-ban.c. add_ip_to_ban_list is cut at its branches: restart, charge and verdict are
--            its assignments to an entry. Score, Expiry and Cleanup prove.
-- SecMod     Types: the data of sec-mod.h, sec-mod-auth.h, sec-mod-acct.h and ipc.proto. Db:
--            sec-mod-db.c. Reply, Login and Session: sec-mod-auth.c, where the C functions end in handlers that
--            find an entry, change it and store it; a handler that may follow a null pointer has the
--            result Outcome. Serve: the dispatch of sec-mod.c. Keeps, Accepting, Sessions, Refused,
--            Barred, Isolation, Timed and InUse prove.
-- IpLease    ip-lease.c. Address: tests of an address. Choice: get_ipv4_lease and get_ipv6_lease, whose
--            two copies of the loop are one function of the size and the test. Registry: the table
--            and the destructor. Usable and Release prove.
-- Bandwidth  worker-bandwidth.c, worker-bandwidth.h and gettime.h. Rate proves.
-- Resume     main-resume.c, over Htable.Multi, the same hash table where a key has several entries
--            and the code walks the entries of one hash. Safe proves.
-- Str        str.c and str.h: an area of bytes, the place of the string in it, and the two sizes. A
--            store outside the area is the result fault. Area and Content prove.
-- Html       html.c. Entities and Urls prove.
-- Worker     worker-vpn.c, after the client has connected. Mtu: mtu_set to mtu_ok, and the packets of
--            the whole MTU that probe the path; Packet: parse_data, parse_cstp_data and
--            parse_dtls_data; Channels: tun_mainloop; Receive: tls_mainloop; Alive: periodic_check;
--            Loop: the main loop between packets of TLS, with the records of dtls_mainloop.
--            The values that GnuTLS and the kernel return are the record Answers, and what is sent is a
--            list. Discovery, Frame, Made, RoundTrip, Dead, Silent and Heard
--            prove.
-- Cookies    cookies.c, over a cipher and a packing of messages. RoundTrip proves.
-- Main       Proc: proc_st of main.h; a pointer to a process is its address in the list. Table:
--            proc-search.c, over Htable.Multi. Session: session_open and session_close of
--            main-sec-mod-cmd.c. Auth: handle_auth_cookie_req and check_multiple_users of main-auth.c.
--            Accept: the reply of main-auth.c, and accept_user to handle_cookie_auth_res of main-misc.c.
--            Serve: the request of a worker, in handle_commands. Scripts: cleanup_children of main.c, the end
--            of the connect script on which a reply waits. Udp: forward_udp_to_owner of main.c,
--            where the time of each process's last datagram is a function of its address. Atomic,
--            Granted, Users, Serve, Scripts and Forward prove.
-- Text       the cutting of texts with the C library: strtok, fgets, getline, isspace, strstr.
-- Password   Tool: ocpasswd.c, where the password file and its temporary copy are the record Disk; the
--            common part of delete_user, lock_user and unlock_user is the function edit. What other
--            processes do between the test for the lock and its opening, and what of a write is stored,
--            are parameters; from then on a run is one step. Groups and
--            Plain: auth/plain.c, whose loops run over the chunks that fgets gives, of up to 511 bytes.
--            Entries, Read, Write, Lookup, Commands, Tries and Access prove; they print a table of
--            entries to a file, and read it back.
-- Http       worker-http.c, whose functions the HTTP parser calls. Types: the data of worker.h. Select:
--            the suites and the compression methods. Value: header_value_check, with
--            ws_switch_auth_to of worker-auth.c. Callbacks: the functions for the parser, and those on
--            a request. Urls: the tables of handlers. Form: parse_reply of worker-auth.c. Post and
--            PostAuth: post_auth_handler of worker-auth.c, cut at its branches; the page for the
--            client is a value. Best, Sound, Calls, Routes, Headers, Fields, Granted and Allowed prove.
-- Together   Main.Serve with the session requests answered by SecMod.Session, and SecMod.Reply with
--            the reports of points answered by Ban (Main.BanRequest). Authorized and Banned prove.
--
-- State is passed explicitly: an operation takes the table or the record and returns it changed. A
-- pointer into a table that the code writes through is the operation write of the table. The clock,
-- memory, random numbers, SHA-1, ping, the address parser, the messages' transport, and the authentication
-- and accounting modules are parameters, gathered in the records World and Env (and AuthWorld,
-- AcceptWorld and Answers), which are given for one request; a reply is an event in the result.
--
-- Integers are natural numbers, with the wrap-around of unsigned and size_t (32 and 64 bits) written
-- out where the code adds or subtracts; time_t values do not wrap. Loops are structural: over the
-- entries left to visit, over the rounds left (16 addresses, 5 SIDs).
--
-- Not modelled: sockets, processes, privileges, TLS, scripts, routes, configuration files and logging,
-- which are input and output; the texts of the pages for the client, and the names in its certificate
-- (worker-auth.c); the modules for PAM, RADIUS and GSSAPI, which call other libraries; copies of other projects (ccan, protobuf-c, pcl, http-parser, gnulib, libopts, lzs.c) and
-- generated code.
pub mod Ban
pub mod Bandwidth
pub mod Base
pub mod Cookies
pub mod Htable
pub mod Html
pub mod Http
pub mod IpLease
pub mod Main
pub mod Password
pub mod Resume
pub mod SecMod
pub mod Str
pub mod Text
pub mod Together
pub mod Worker
