-- ===== src/Lib.antt =====
-- A model of the robot arm's own code, and what holds of it.
--
-- The program runs on a Raspberry Pi and on a computer beside it. On the Pi a websocket server
-- (RaspberryPi/src/ws) takes the packets of browser clients into a message queue that the control
-- loop empties; drivers over pigpio move the servos, read a rotary encoder and take pictures
-- (RaspberryPi/src/XNlib/xn_gpio.hpp); a TCP link carries pictures to the other computer and
-- positions back (RaspberryPi/src/arducam_lws.cpp, Windows/XNlib/include/xn_net.hpp), which finds
-- objects in them and calibrates the camera (Windows/XNlib/include). A program of its own turns a
-- stepper motor (RaspberryPi/src/stepper.cpp).
--
-- Files and code:
--   Base             numbers with Boolean tests, lists over the native numbers, 32-bit integers
--   Ws/Run           the outcome of C code: a value, a failed assert, a bad pointer, no more rounds
--   Ws/Queue         struct elt, struct queue, queueCreate, enq, deq, queueEmpty, queueDestroy
--                    (ws/message_queue.c), on an explicit heap; Queue/Chain says what a queue in
--                    memory stands for, Queue/Fifo has the lemmas
--   Ws/MessageQueue  enq_msg, pop_new_messages, get_message_queue_size (ws/message_queue.c)
--   Ws/Connections   insert_id, remove_id, add_connection, get_connections (ws/message_queue.c)
--   Ws/Message       Message, MSG_TYPE, USER_TYPE (ws/message_queue.h)
--   Ws/Receive       ws_recv_msg, ws_recv_motion_event (ws/protocol_lws_minimal.c), get_motion_data
--                    (ws/ws_ring_server.c)
--   Ws/Lws           the interface of libwebsockets' ring buffer
--   Ws/Server        ws_write, ws_broadcast, ws_send, cull_lagging_clients (ws/lws_gibberish.c),
--                    ws_broadcast_int (ws/protocol_lws_minimal.c)
--   Ws/Callback      callback_minimal (ws/protocol_lws_minimal.c), a function for each reason
--   Ws/Life          init_msg_q, PROTOCOL_INIT and PROTOCOL_DESTROY, and the callbacks and pops between
--   Ws/Startup       ws_create_thread and start_server_loop (ws/ws_ring_server.c) as a step relation
--   Gpio/Rotary      RotaryEncoder (xn_gpio.hpp)
--   Gpio/Servo       ServoAngular, ServoContinuous (xn_gpio.hpp)
--   Gpio/Smooth      BezierCurve, SmoothServo (xn_gpio.hpp), clamp (xn_vec.hpp)
--   Gpio/Stepper     Stepper (xn_gpio.hpp)
--   Gpio/Camera      Arducam: its constructor and setQuality (xn_gpio.hpp)
--   Tcp              read_int32_t, send_int32_t, cam_io_thread's frames (arducam_lws.cpp); read_buf,
--                    send_int, readImageThread (xn_net.hpp); Tcp/Writers has the two threads that
--                    write to the arm's socket, Tcp/Shots Arducam::capture and cam_io_thread's loop
--                    with the answers, Tcp/Stream VideoStream: its thread and getLastFrame beside
--                    the program that looks
--   Control          the loop of main in RaspberryPi/src/arm_lws.cpp, in Control/Start with its servos
--                    and their threads
--   Search           cam_search_thread, in Search/Start the camera's servos before it
--                    (RaspberryPi/src/arducam_lws.cpp)
--   Grab             servo_ctl_thread, in Grab/Start and Grab/Loop the arm that main sets up, its loop
--                    and INThandler (RaspberryPi/src/arducam_lws.cpp)
--   Vec              vec3, in Vec/Flat vec2 (RaspberryPi/src/XNlib/xn_vec.hpp)
--   Ik               IkChain, in Ik/Servos and Ik/Poses ServoChain (RaspberryPi/src/XNlib/xn_ik.hpp)
--   Motor            RaspberryPi/src/stepper.cpp: Wave, Thread: step_thread, Main: main and stop,
--                    Text: the numbers of its file
--   Detect           TrackingInfo, postprocess, drawPred, in Detect/Prepare create_dnn and preprocess
--                    (Windows/XNlib/include/xn_yolo.hpp)
--   Calib            Settings, validate; below it Stored: write and read, Board:
--                    calcBoardCornerPositions, Errors: computeReprojectionErrors, Solve:
--                    runCalibration, Capture: the loop of calibrate_camera, Program: the whole of
--                    it, from the file of its settings to its last loop, Saved: saveCameraParams
--                    (Windows/XNlib/include/cam_calib.hpp) and readCameraInfo (xn_homo.hpp)
--   SmoothArray      RaspberryPi/src/servo_smooth_array.cpp
--   Viewer           the loop of main in Windows/RobotController/StreamTest.cpp; Viewer/Homo:
--                    GetHomoTransform, inverseProjectPoint (Windows/XNlib/include/xn_homo.hpp);
--                    Viewer/Served puts the viewer and the arm at the two ends of the link
--   Floats           C's float and double, as an interface without laws
-- The modules below one of these hold its lemmas and theorems; those named Examples run the theorems
-- on concrete inputs.
--
-- State is passed explicitly. Addresses are numbers, with 0 for null; what malloc returns, what
-- memory holds before it is written, and what lws_write returns are arguments. A call that holds
-- the mutex from its first to its last access is one step. Loops over arrays and lists are
-- structural. queueDestroy and read_buf take a number of rounds: one more than the queue has
-- elements, and the number of bytes to read, are enough. dispatch reads as many messages as the
-- call of pop_new_messages reports. Pointers are compared and followed, never computed with. The
-- int fields that count elements are natural numbers or integers without wrap-around: none counts
-- beyond what memory can hold; packets, where the wrap-around matters, are 32-bit patterns.
--
-- Floating-point values are those of an interface: a definition says which operations are done and
-- in which order, and a theorem holds for any of them, or names the laws of their order that it
-- needs. The theorem on inverseProjectPoint is about arithmetic without rounding, and says so.
--
-- pigpio's waves, OpenCV, its networks and dlib are parameters: records of the functions that the
-- code calls, with what is documented of them as hypotheses of the theorems that need it. Where
-- several vectors grow together in a loop, the loop is read from its end, and the vectors are read
-- as one list of detections in the theorems. The rounds of a thread or of a program's main loop are
-- a list of what each round reads.
--
-- Not modelled: the rest of the main functions, which start the threads; the programs that try out
-- single parts; the main loop and servo_ctl_thread moving the arm at once; graphics; printing;
-- opening and closing sockets; the libraries themselves. The components of a motion vector are kept
-- as the integers of the packet, before they are scaled to float.
pub mod Base
pub mod Floats
pub mod Ws
pub mod Gpio
pub mod Tcp
pub mod Control
pub mod Search
pub mod Vec
pub mod Ik
pub mod Motor
pub mod Detect
pub mod Calib
pub mod Grab
pub mod SmoothArray
pub mod Viewer
